-- ===== src/Connection/Rounds.antt =====
-- What name_fill of src/cyberd/socket_connection_node.c takes from its input.
use cyberd.Base.{
  ℕ, zero, suc, ◌+◌, ◌≤◌, ◌<◌, ◌≡◌, List, [], ◌∷◌, ◌++◌, Option, none, some, arith, length, take,
  drop, ok, >>=-eq-ok,
}
use cyberd.Connection.{Filled, memchr, name_fill, name_max, fill_length}

memchr-none : (c n : ℕ) (bytes : List ℕ) → memchr c n bytes ≡ ok none → n ≤ length bytes
unfolding memchr
memchr-none c zero bytes q = omega arith
memchr-none c (suc n) [] q = cc
memchr-none c (suc n) (b ∷ bytes) q = ground (arith, memchr-none c n bytes)

memchr-some :
    (c n : ℕ) (bytes : List ℕ) (i : ℕ)
    → memchr c n bytes ≡ ok (some i)
    → (i < n) × (i < length bytes)
unfolding memchr
memchr-some c zero bytes i q = cc
memchr-some c (suc n) [] i q = cc
memchr-some c (suc n) (b ∷ bytes) zero q = ground arith
memchr-some c (suc n) (b ∷ bytes) (suc i) q = ground (arith, memchr-some c n bytes i)

fill_length_bounds :
    (count : ℕ) (bytes : List ℕ) (nul : Option ℕ)
    → 0 < count
    → memchr 0 count bytes ≡ ok nul
    → (fill_length nul count ≤ length bytes)
      × (fill_length nul count ≤ count)
      × (0 < fill_length nul count)
fill_length_bounds count bytes none c q = (memchr-none 0 count bytes q, omega arith, c)
fill_length_bounds count bytes (some i) c q = omega (arith, memchr-some 0 count bytes i q)

-- A name that is filled takes bytes that were received, and fits in the buffer.
pub record Fills (name bytes : List ℕ) (count len : ℕ) (g : Filled) : Type 0 where
  pub received : len ≤ length bytes
  pub counted : len ≤ count
  pub positive : 0 < len
  pub fits : length name + len ≤ name_max + 1
  pub name_eq : g.name ≡ name ++ take len bytes
  pub bytes_eq : g.bytes ≡ drop len bytes
  pub count_eq : g.count ≡ count + len

filled-Fills :
    (name bytes : List ℕ) (count : ℕ) (nul : Option ℕ) (g : Filled)
    → 0 < count
    → memchr 0 count bytes ≡ ok nul
    → name_fill name bytes count ≡ ok (some g)
    → (memchr b'/' (fill_length nul count) bytes ≡ ok none)
      × Fills name bytes count (fill_length nul count) g
unfolding name_fill
filled-Fills name bytes count nul g c e q =
    let b = fill_length_bounds count bytes nul c e in ground arith

pub name_fill-Fills :
    (name bytes : List ℕ) (count : ℕ) (g : Filled)
    → 0 < count
    → name_fill name bytes count ≡ ok (some g)
    → (nul : Option ℕ) × (memchr 0 count bytes ≡ ok nul)
      × (memchr b'/' (fill_length nul count) bytes ≡ ok none)
      × Fills name bytes count (fill_length nul count) g
unfolding name_fill
name_fill-Fills name bytes count g c q =
    let (nul, e, _) = >>=-eq-ok (memchr 0 count bytes) _ q in
    let (slash, f) = filled-Fills name bytes count nul g c e q in (nul, e, slash, f)
