-- ===== src/Config/Port.antt =====
-- What `portOf` finds: what follows the last colon.
use distributed_service_mesh.Base.Text.{Free, Text}
use distributed_service_mesh.Config.Address.{is_colon, colon, port_of, port_from}
use distributed_service_mesh.Base.{
  All-get, ◌≢◌, inr, inl, ◌∙◌, Option-cases, [], length-append, refl, false, arith, ap, get_elem?,
  zero, ◌∷◌, suc, ◌+◌, ◌++◌, length, drop, ℕ, ◌≡◌,
}

get_elem?-append :
    (xs ys : Text) (i n : ℕ) → i ≡ length xs + n → get_elem? (xs ++ ys) i ≡ get_elem? ys n
get_elem?-append [] ys i n h = ap (get_elem? ys) (omega (arith, h))
get_elem?-append (x ∷ xs) ys zero n h = absurd (omega (arith, h))
get_elem?-append (x ∷ xs) ys (suc i) n h = get_elem?-append xs ys i n (omega (arith, h))

is_colon-get_elem? : (addr : Text) (i : ℕ) → Free colon addr → is_colon (get_elem? addr i) ≡ false
is_colon-get_elem? addr i free = elim (Option-cases (get_elem? addr i)) [
  | inl past ↦ rw past refl
  | inr (b, found) ↦
      let other : b ≢ colon = All-get (λ c. c ≢ colon) addr i free found in
      rw found (ground (arith, other))
]

drop-suc-append : (host port : Text) (c : ℕ) → drop (suc (length host)) (host ++ c ∷ port) ≡ port
drop-suc-append [] port c = refl
drop-suc-append (x ∷ host) port c = drop-suc-append host port c

port_from-append :
    (host port : Text)
    → Free colon port
    → (k i : ℕ) → i ≡ length host + suc k
    → port_from i (host ++ colon ∷ port) ≡ port
unfolding port_from
port_from-append host port free k zero h = absurd (omega (arith, h))
port_from-append host port free zero (suc i) h =
    let at : i ≡ length host + 0 = omega (arith, h) in
    let here : i ≡ length host = omega (arith, h) in
    rw (get_elem?-append host (colon ∷ port) i 0 at)
      (ap (λ n. drop (suc n) (host ++ colon ∷ port)) here ∙ drop-suc-append host port colon)
port_from-append host port free (suc k) (suc i) h =
    let at : i ≡ length host + suc k = omega (arith, h) in
    rw (get_elem?-append host (colon ∷ port) i (suc k) at, is_colon-get_elem? port k free)
      (port_from-append host port free k i at)

-- If the port has no colon in it, portOf returns the port of a host, a colon and the port.
pub port_of-append : (host port : Text) → Free colon port → port_of (host ++ colon ∷ port) ≡ port
unfolding port_of
port_of-append host port free =
    port_from-append host port free (length port) (length (host ++ colon ∷ port))
      (length-append host (colon ∷ port))

port_from-Free : (i : ℕ) (addr : Text) → Free colon addr → port_from i addr ≡ addr
unfolding port_from
port_from-Free zero addr free = refl
port_from-Free (suc i) addr free = rw (is_colon-get_elem? addr i free) (port_from-Free i addr free)

-- With no colon in it, portOf returns the whole address.
pub port_of-Free : (addr : Text) → Free colon addr → port_of addr ≡ addr
unfolding port_of
port_of-Free addr free = port_from-Free (length addr) addr free
