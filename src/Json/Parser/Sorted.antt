-- ===== src/Json/Parser/Sorted.antt =====
-- Members in the order of their keys, added one after the other.
use entropy_vpn.Base.{true, false, [], ◌∷◌, Bytes, ◌≡◌, refl, ◌∙◌, ap, sym, bytes_eq, arith}
use entropy_vpn.Config.Matchers.{bytes_lt}
use entropy_vpn.Config.Matchers.Sorted.{bytes_lt_asym}
use entropy_vpn.Json.Value.{Json, Members, no_members, entry, assign_member}

bytes_eq-bytes_lt : (a b : Bytes) → bytes_lt a b ≡ true → bytes_eq a b ≡ false
unfolding bytes_lt bytes_eq
bytes_eq-bytes_lt [] [] h = ground arith
bytes_eq-bytes_lt [] (y ∷ b) h = refl
bytes_eq-bytes_lt (x ∷ a) [] h = refl
bytes_eq-bytes_lt (x ∷ a) (y ∷ b) h = ground (arith, bytes_eq-bytes_lt a b)

module _ {N : Type 0} where
  -- The key is smaller than each of these.
  abbrev pub IsBelow : Bytes → Members N → Type 0
  IsBelow key no_members = Unit
  IsBelow key (entry k v ms) = (bytes_lt key k ≡ true) × IsBelow key ms

  -- What `assign_member` does to each in turn.
  unfoldable pub assign_all : Members N → Members N → Members N
  assign_all acc no_members = acc
  assign_all acc (entry k v ms) = assign_all (assign_member k v acc) ms

  append : Members N → Members N → Members N
  append no_members ms = ms
  append (entry k v acc) ms = entry k v (append acc ms)

  append_one :
      (acc : Members N) (k : Bytes) (v : Json N) (ms : Members N)
      → append (append acc (entry k v no_members)) ms ≡ append acc (entry k v ms)
  unfolding append
  append_one no_members k v ms = refl
  append_one (entry k' v' acc) k v ms = ap (entry k' v') (append_one acc k v ms)

  append-no_members : (acc : Members N) → append acc no_members ≡ acc
  unfolding append
  append-no_members no_members = refl
  append-no_members (entry k v acc) = ap (entry k v) (append-no_members acc)

  -- Each key is smaller than all that follow it.
  abbrev pub IsOrdered : Members N → Type 0
  IsOrdered no_members = Unit
  IsOrdered (entry k v ms) = IsBelow k ms × IsOrdered ms

  IsBelow-append :
      (key : Bytes) (acc : Members N) (k : Bytes) (v : Json N) (ms : Members N)
      → IsBelow key (append acc (entry k v ms))
      → bytes_lt key k ≡ true
  unfolding append
  IsBelow-append key no_members k v ms h = h.0
  IsBelow-append key (entry k' v' acc) k v ms h = IsBelow-append key acc k v ms h.1

  assign_member_last :
      (acc : Members N) (k : Bytes) (v : Json N) (ms : Members N)
      → IsOrdered (append acc (entry k v ms))
      → assign_member k v acc ≡ append acc (entry k v no_members)
  unfolding assign_member append
  assign_member_last no_members k v ms h = refl
  assign_member_last (entry k' v' acc) k v ms h =
      let lt = IsBelow-append k' acc k v ms h.0 in
      rw (bytes_eq-bytes_lt k' k lt, bytes_lt_asym k' k lt)
        (ap (entry k' v') (assign_member_last acc k v ms h.1))

  assign_all-append :
      (acc ms : Members N) → IsOrdered (append acc ms) → assign_all acc ms ≡ append acc ms
  unfolding assign_all
  assign_all-append acc no_members h = sym (append-no_members acc)
  assign_all-append acc (entry k v ms) h = rw (assign_member_last acc k v ms h) (
      assign_all-append (append acc (entry k v no_members)) ms (rw (append_one acc k v ms) h)
      ∙ append_one acc k v ms)

  -- Members in order are what assigning them in turn gives.
  pub assign_all_lem : (ms : Members N) → IsOrdered ms → assign_all no_members ms ≡ ms
  assign_all_lem ms h = unfold append in assign_all-append no_members ms (unfold append in h)
