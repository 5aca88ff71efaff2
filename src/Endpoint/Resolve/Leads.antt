-- ===== src/Endpoint/Resolve/Leads.antt =====
-- When `resolve_sing_box_outbound` finds an outbound.
use entropy_vpn.Base.{
  ℕ, zero, suc, ◌+◌, ◌<◌, Bool, true, false, List, [], ◌∷◌, none, some, Bytes, ◌≡◌, ◌⊎◌, inl, inr,
  refl, sym, ap, ◌∙◌, All, All-map, is_empty, length, arith, Bool-cases, Option-cases,
  if◌then◌else◌,
}
use entropy_vpn.Endpoint.Resolve.Seen.{
  Includes, is_in-head, is_in-tail, is_in-cases, All-is_in, unseen, unseen_antitone, unseen-length,
  unseen-cons,
}
use entropy_vpn.Endpoint.Resolve.{
  Resolved, is_in, find_tag, or_children, first_resolved, has_server, child_tags, outbound_found,
  resolve_sing_box_outbound, resolve_final,
}
use entropy_vpn.Json.Value.{Doubles, Json}
use entropy_vpn.Text.{is_some}

module _ {N : Type 0} (D : Doubles N) (by_tag : List (Bytes × Json N)) where
  -- From a tag, through groups that name other tags, to an outbound with a server.
  pub data Leads : Bytes → Json N → Type 0 where
    here :
        (tag : Bytes) (v : Json N)
        → find_tag tag by_tag ≡ some v
        → has_server D v ≡ true
        → Leads tag v
    through :
        (tag : Bytes) (v : Json N) (child : Bytes) (w : Json N)
        → find_tag tag by_tag ≡ some v
        → is_in child (child_tags D v) ≡ true
        → is_empty child ≡ false
        → Leads child w
        → Leads tag w

  abbrev Covered : List Bytes → Bytes → Type 0
  Covered seen tag = (is_empty tag ≡ true) ⊎ (is_in tag seen ≡ true)

  -- The tag has no server of its own, and all its children were seen.
  abbrev IsDone : List Bytes → Bytes → Type 0
  IsDone seen tag =
      (v : Json N)
      → find_tag tag by_tag ≡ some v
      → (has_server D v ≡ false) × All (Covered seen) (child_tags D v)

  IsDone-mono :
      (small large : List Bytes) (tag : Bytes)
      → Includes small large
      → IsDone small tag
      → IsDone large tag
  IsDone-mono small large tag inc done v found = (
    (done v found).0,
    All-map (λ t c. elim c [ inl e ↦ inl e | inr e ↦ inr (inc t e) ]) (child_tags D v)
        (done v found).1,
  )

  -- After a search that found nothing: what was seen stays so, the tags of the call were seen, and
  -- each new tag is done.
  abbrev Explored : List Bytes → (List Bytes → Type 0) → Resolved N → Type 0
  Explored seen Q (some v, after) = Unit
  Explored seen Q (none, after) =
      Includes seen after
      × Q after
      × ((t : Bytes) → is_in t after ≡ true → (is_in t seen ≡ true) ⊎ IsDone after t)

  Explored-then :
      (seen middle : List Bytes) (Q R : List Bytes → Type 0) (r : Resolved N)
      → Includes seen middle
      → ((after : List Bytes) → Includes middle after → Q after → R after)
      → ((after : List Bytes)
          → Includes middle after
          → Q after
          → (t : Bytes) → is_in t middle ≡ true
          → (is_in t seen ≡ true) ⊎ IsDone after t)
      → Explored middle Q r
      → Explored seen R r
  Explored-then seen middle Q R (some v, after) inc next closed e = tt
  Explored-then seen middle Q R (none, after) inc next closed (inc2, q, done) = (
    λ t h. inc2 t (inc t h),
    next after inc2 q,
    λ t h. elim (done t h) [ inl old ↦ closed after inc2 q t old | inr d ↦ inr d ],
  )

  -- One call explores its tag, if fewer tags are unseen.
  abbrev Explores : ℕ → (Bytes → List Bytes → Resolved N) → Type 0
  Explores bound resolve =
      (tag : Bytes) (seen : List Bytes)
      → unseen seen by_tag < bound
      → Explored seen (λ after. is_in tag after ≡ true) (resolve tag seen)

  abbrev ExploresAll : ℕ → List Bytes → (List Bytes → Resolved N) → Type 0
  ExploresAll bound tags loop =
      (seen : List Bytes)
      → unseen seen by_tag < bound
      → Explored seen (λ after. All (Covered after) tags) (loop seen)

  or_children-Explored :
      (bound : ℕ) (tag : Bytes) (tags : List Bytes) (loop : List Bytes → Resolved N)
      → ExploresAll bound tags loop
      → (seen : List Bytes) → unseen seen by_tag < bound
      → (r : Resolved N) → Explored seen (λ after. is_in tag after ≡ true) r
      → Explored seen (λ after. All (Covered after) (tag ∷ tags)) (or_children r loop)
  or_children-Explored bound tag tags loop h seen few (some v, after) e = tt
  or_children-Explored bound tag tags loop h seen few (none, middle) (inc, found, done) =
      Explored-then seen middle (λ after. All (Covered after) tags)
        (λ after. All (Covered after) (tag ∷ tags)) (loop middle) inc
        (λ after inc2 q. (inr (inc2 tag found), q))
        (λ after inc2 q t h. elim (done t h) [
          | inl old ↦ inl old
          | inr d ↦ inr (IsDone-mono middle after t inc2 d)
        ])
        (h middle (let less = unseen_antitone seen middle by_tag inc in omega (arith, less, few)))

  if-Explored :
      (seen : List Bytes) (Q : List Bytes → Type 0) (b : Bool) (r s : Resolved N)
      → (b ≡ true → Explored seen Q r)
      → (b ≡ false → Explored seen Q s)
      → Explored seen Q (if b then r else s)
  if-Explored seen Q true r s on off = on refl
  if-Explored seen Q false r s on off = off refl

  found-IsDone :
      (tag : Bytes) (v : Json N) (after : List Bytes)
      → find_tag tag by_tag ≡ some v
      → has_server D v ≡ false
      → All (Covered after) (child_tags D v)
      → IsDone after tag
  found-IsDone tag v after e group covered w found =
      let one : v ≡ w = ap (λ o. elim o [ none ↦ v | some x ↦ x ]) (sym e ∙ found) in
      rw (← one) (group, covered)

  first_resolved-Explored :
      (bound : ℕ) (resolve : Bytes → List Bytes → Resolved N)
      → Explores bound resolve
      → (tags : List Bytes) → ExploresAll bound tags (first_resolved resolve tags)
  unfolding first_resolved
  first_resolved-Explored bound resolve h [] seen few = (λ t e. e, tt, λ t e. inl e)
  first_resolved-Explored bound resolve h (tag ∷ tags) seen few =
      let later = first_resolved-Explored bound resolve h tags in
      if-Explored seen (λ after. All (Covered after) (tag ∷ tags)) (is_empty tag)
        (first_resolved resolve tags seen)
        (or_children (resolve tag seen) (first_resolved resolve tags))
        (λ e.
          Explored-then seen seen (λ after. All (Covered after) tags)
            (λ after. All (Covered after) (tag ∷ tags)) (first_resolved resolve tags seen)
            (λ t i. i) (λ after inc q. (inl e, q)) (λ after inc q t i. inl i) (later seen few))
        (λ e.
          or_children-Explored bound tag tags (first_resolved resolve tags) later seen few
            (resolve tag seen) (h tag seen few))

  outbound_found-Explored :
      (bound : ℕ) (resolve : Bytes → List Bytes → Resolved N) (tag : Bytes) (seen : List Bytes)
      → Explores bound resolve
      → is_in tag seen ≡ false
      → unseen seen by_tag < suc bound
      → Explored seen
          (λ after. is_in tag after ≡ true)
          (outbound_found D resolve (find_tag tag by_tag) (tag ∷ seen))
  unfolding outbound_found
  outbound_found-Explored bound resolve tag seen h fresh few =
      elim (Option-cases (find_tag tag by_tag)) [
        | inl e ↦ rw e (
          is_in-tail tag seen,
          is_in-head tag seen,
          λ t i. elim (is_in-cases t tag seen i) [
            | inl same ↦ inr (λ v found.
                let wrong = sym e ∙ ap (λ x. find_tag x by_tag) same ∙ found in ground arith)
            | inr old ↦ inl old
          ],
        )
        | inr (v, e) ↦ elim (Bool-cases (has_server D v)) [
          | inl usable ↦ rw (e, usable) tt
          | inr group ↦
              rw (e, group)
                (Explored-then seen (tag ∷ seen) (λ after. All (Covered after) (child_tags D v))
                  (λ after. is_in tag after ≡ true)
                  (first_resolved resolve (child_tags D v) (tag ∷ seen)) (is_in-tail tag seen)
                  (λ after inc q. inc tag (is_in-head tag seen))
                  (λ after inc q t i. elim (is_in-cases t tag seen i) [
                    | inl same ↦ inr (
                        found-IsDone t v after (ap (λ x. find_tag x by_tag) (sym same) ∙ e) group q)
                    | inr old ↦ inl old
                  ])
                  (first_resolved-Explored bound resolve h (child_tags D v) (tag ∷ seen)
                    (let less = unseen-cons tag seen v by_tag e fresh in omega (arith, less, few))))
        ]
      ]

  resolve-Explored :
      (f : ℕ)
      → (tag : Bytes) (seen : List Bytes) → unseen seen by_tag < f
      → Explored seen
          (λ after. is_in tag after ≡ true)
          (resolve_sing_box_outbound D f by_tag tag seen)
  unfolding resolve_sing_box_outbound
  resolve-Explored zero tag seen few = let wrong : ⊥ = omega (arith, few) in elim wrong [ ]
  resolve-Explored (suc f) tag seen few = elim (Bool-cases (is_in tag seen)) [
    | inl e ↦ rw e (λ t i. i, e, λ t i. inl i)
    | inr fresh ↦ rw fresh (
        outbound_found-Explored f (resolve_sing_box_outbound D f by_tag) tag seen
          (resolve-Explored f) fresh few)
  ]

  -- What is closed under children holds no tag that leads to an outbound.
  done-Leads :
      (seen : List Bytes)
      → ((t : Bytes) → is_in t seen ≡ true → IsDone seen t)
      → (tag : Bytes) (w : Json N) → is_in tag seen ≡ true
      → Leads tag w
      → false ≡ true
  done-Leads seen done tag w i (here _ _ found usable) = sym (done tag i w found).0 ∙ usable
  done-Leads seen done tag w i (through _ v child _ found listed filled leads) =
      elim (All-is_in (Covered seen) (child_tags D v) child (done tag i v found).1 listed) [
        | inl e ↦ sym filled ∙ e
        | inr e ↦ done-Leads seen done child w e leads
      ]

  -- If the final tag leads, through groups that name other tags, to an outbound with a server,
  -- resolve_sing_box_outbound finds an outbound for it, also where groups name each other in a
  -- circle: the set of seen tags never hides the last way.
  pub Leads-resolve_final :
      (tag : Bytes) (w : Json N) → Leads tag w → is_some (resolve_final D by_tag tag) ≡ true
  unfolding resolve_final is_in
  Leads-resolve_final tag w leads =
      settled (resolve_sing_box_outbound D (2 + length by_tag) by_tag tag []) (
        resolve-Explored (2 + length by_tag) tag []
          (let few = unseen-length [] by_tag in omega (arith, few)))
    where
      settled :
          (r : Resolved N) → Explored [] (λ after. is_in tag after ≡ true) r → is_some r.0 ≡ true
      settled (some v, after) e = refl
      settled (none, after) (inc, found, done) =
          done-Leads after
            (λ t i. elim (done t i) [
              | inl old ↦ let wrong : ⊥ = ground arith in elim wrong [ ]
              | inr d ↦ d
            ])
            tag w found leads
