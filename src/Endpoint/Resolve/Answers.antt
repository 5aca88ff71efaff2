-- ===== src/Endpoint/Resolve/Answers.antt =====
-- Which outbound `resolve_sing_box_outbound` finds.
use entropy_vpn.Base.{
  ℕ, zero, suc, ◌+◌, true, false, List, [], ◌∷◌, none, some, Bytes, ◌≡◌, inl, inr, ap, is_empty,
  length, arith, Bool-cases, Option-cases,
}
use entropy_vpn.Endpoint.Resolve.Seen.{is_in-head, is_in-tail}
use entropy_vpn.Endpoint.Resolve.{
  Resolved, is_in, find_tag, or_children, first_resolved, has_server, child_tags, outbound_found,
  resolve_sing_box_outbound, resolve_final,
}
use entropy_vpn.Json.Value.{Doubles, Json}
use entropy_vpn.Endpoint.Resolve.Leads.{Leads, here, through}

module _ {N : Type 0} (D : Doubles N) (by_tag : List (Bytes × Json N)) where
  -- Whatever a call returns, the tag leads to it.
  abbrev Answers : Bytes → Resolved N → Type 0
  Answers tag (none, after) = Unit
  Answers tag (some v, after) = Leads D by_tag tag v

  first_resolved-Answers :
      (resolve : Bytes → List Bytes → Resolved N) (tag : Bytes) (v : Json N)
      → find_tag tag by_tag ≡ some v
      → ((t : Bytes) (seen : List Bytes) → Answers t (resolve t seen))
      → (tags seen : List Bytes)
      → ((t : Bytes) → is_in t tags ≡ true → is_in t (child_tags D v) ≡ true)
      → Answers tag (first_resolved resolve tags seen)
  unfolding first_resolved
  first_resolved-Answers resolve tag v found h [] seen sub = tt
  first_resolved-Answers resolve tag v found h (t ∷ tags) seen sub =
      let later = λ (s : List Bytes).
        first_resolved-Answers resolve tag v found h tags s
          (λ x i. sub x (is_in-tail t tags x i)) in
      elim (Bool-cases (is_empty t)) [
        | inl e ↦ rw e (later seen)
        | inr filled ↦ rw filled (chosen filled later (resolve t seen) (h t seen))
      ]
    where
      chosen :
          is_empty t ≡ false
          → ((s : List Bytes) → Answers tag (first_resolved resolve tags s))
          → (r : Resolved N) → Answers t r
          → Answers tag (or_children r (first_resolved resolve tags))
      chosen filled later (some w, after) a =
          through tag v t w found (sub t (is_in-head t tags)) filled a
      chosen filled later (none, after) a = later after

  resolve-Answers :
      (f : ℕ) (tag : Bytes) (seen : List Bytes)
      → Answers tag (resolve_sing_box_outbound D f by_tag tag seen)
  unfolding resolve_sing_box_outbound outbound_found
  resolve-Answers zero tag seen = tt
  resolve-Answers (suc f) tag seen = elim (Bool-cases (is_in tag seen)) [
    | inl e ↦ rw e tt
    | inr fresh ↦ elim (Option-cases (find_tag tag by_tag)) [
      | inl e ↦ rw (fresh, e) tt
      | inr (v, e) ↦ elim (Bool-cases (has_server D v)) [
        | inl usable ↦ rw (fresh, e, usable) (here tag v e usable)
        | inr group ↦
            rw (fresh, e, group)
              (first_resolved-Answers (resolve_sing_box_outbound D f by_tag) tag v e
                (resolve-Answers f) (child_tags D v) (tag ∷ seen) (λ t i. i))
      ]
    ]
  ]

  -- An outbound that resolve_sing_box_outbound finds for a tag is one that the tag leads to, through
  -- groups that name other tags, and it has a server.
  pub resolve_final-Leads :
      (tag : Bytes) (v : Json N) → resolve_final D by_tag tag ≡ some v → Leads D by_tag tag v
  unfolding resolve_final
  resolve_final-Leads tag v =
      settled (resolve_sing_box_outbound D (2 + length by_tag) by_tag tag [])
        (resolve-Answers (2 + length by_tag) tag [])
    where
      settled : (r : Resolved N) → Answers tag r → r.0 ≡ some v → Leads D by_tag tag v
      settled (none, after) a e = ground arith
      settled (some w, after) a e =
          let one : w ≡ v = ap (λ o. elim o [ none ↦ w | some x ↦ x ]) e in rw (← one) a
