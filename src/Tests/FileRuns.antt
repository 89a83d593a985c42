-- ===== src/Tests/FileRuns.antt =====
-- Lines and files of src/cyberd/daemon_conf.c.
use cyberd.Base.{
  List, [], ◌∷◌, ◌++◌, map, some, ok, fault, out_of_bounds, ◌≡◌, refl, arith, Returns,
}
use cyberd.DaemonConf.{daemon_conf_init}
use cyberd.DaemonConf.Files.{daemon_conf_parse}
use cyberd.DaemonConf.Files.Written.{IsFile, Parses, daemon_conf_parse-Parses}
use cyberd.DaemonConf.Lines.{Item, entry, parse_text}
use cyberd.DaemonConf.Lines.Layouts.{Layout, print_line, IsLayout, IsItem}
use cyberd.DaemonConf.Lines.RoundTrip.{parse_text-print_line}
use cyberd.DaemonConf.Lines.Blank.{parse_text-blank}
use cyberd.Tests.ConfRuns.{host}

abbrev pub spaced : Layout
spaced = record {
  indent = b' ' ∷ [];
  before = b' ' ∷ [];
  after = b' ' ∷ [];
  trail = b' ' ∷ [];
  comment = b'#' ∷ b'x' ∷ b'\n' ∷ [];
}

pub spaced-IsLayout : IsLayout spaced
spaced-IsLayout = record {
  indent_spaces = (refl, tt);
  before_spaces = (refl, tt);
  after_spaces = (refl, tt);
  trail_spaces = (refl, tt);
  comment_lem = (refl, (refl, (refl, tt)));
}

-- `path = /s`
abbrev pub path_entry : Item
path_entry = entry (b'p' ∷ b'a' ∷ b't' ∷ b'h' ∷ []) (some (b'/' ∷ b's' ∷ []))

pub path_entry-IsItem : IsItem path_entry
path_entry-IsItem = (
  record {
    solid = record {
      begins = refl;
      ends = refl;
      uncommented = (refl, (refl, (refl, (refl, tt))));
      string = (refl, (refl, (refl, (refl, tt))));
    };
    unassigned = (refl, (refl, (refl, (refl, tt))));
    opens = refl;
  },
  record {
    begins = refl;
    ends = refl;
    uncommented = (refl, (refl, tt));
    string = (refl, (refl, tt));
  },
)

parse_text-print_line_example : parse_text (print_line spaced path_entry) ≡ ok path_entry
parse_text-print_line_example =
    parse_text-print_line spaced path_entry spaced-IsLayout path_entry-IsItem

parse_text-blank_example : parse_text ((b' ' ∷ []) ++ (b'#' ∷ b'\n' ∷ [])) ≡ fault out_of_bounds
parse_text-blank_example =
    parse_text-blank (b' ' ∷ []) (b'#' ∷ b'\n' ∷ []) (refl, tt) (refl, (refl, tt))

abbrev pub file : List (Layout × Item)
file = (spaced, path_entry) ∷ []

pub file-IsFile : IsFile file
file-IsFile = ((spaced-IsLayout, path_entry-IsItem), tt)

daemon_conf_parse-Parses_example :
    Returns
      (Parses host 18)
      (daemon_conf_parse host (daemon_conf_init 18) (map (λ line. print_line line.0 line.1) file))
daemon_conf_parse-Parses_example = daemon_conf_parse-Parses host 18 file (omega arith) file-IsFile
