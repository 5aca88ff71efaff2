-- ===== src/Endpoint/Resolve/Seen.antt =====
-- The tags that `resolve_sing_box_outbound` has seen.
use entropy_vpn.Base.{
  ℕ, ◌+◌, ◌≤◌, ◌<◌, true, false, List, [], ◌∷◌, none, some, Bytes, bytes_eq, bytes_eq_iff,
  if◌then◌else◌, ◌≡◌, ◌⊎◌, inl, inr, refl, ap, ◌∙◌, All, length, arith, Bool-cases, Option-cases,
}
use entropy_vpn.Endpoint.Resolve.{is_in, find_tag}
use entropy_vpn.Json.Value.{Json}

abbrev pub Includes : List Bytes → List Bytes → Type 0
Includes small large = (tag : Bytes) → is_in tag small ≡ true → is_in tag large ≡ true

pub is_in-head : (tag : Bytes) (seen : List Bytes) → is_in tag (tag ∷ seen) ≡ true
unfolding is_in
is_in-head tag seen = rw ((bytes_eq_iff tag tag).1 refl) refl

pub is_in-tail : (tag : Bytes) (seen : List Bytes) → Includes seen (tag ∷ seen)
unfolding is_in
is_in-tail tag seen t h = elim (Bool-cases (bytes_eq tag t)) [ inl e ↦ rw e refl | inr e ↦ rw e h ]

pub is_in-cases :
    (t tag : Bytes) (seen : List Bytes)
    → is_in t (tag ∷ seen) ≡ true
    → (tag ≡ t) ⊎ (is_in t seen ≡ true)
unfolding is_in
is_in-cases t tag seen h = elim (Bool-cases (bytes_eq tag t)) [
  | inl e ↦ inl ((bytes_eq_iff tag t).0 e)
  | inr e ↦ inr (rw e at h)
]

pub All-is_in :
    (P : Bytes → Type 0) (tags : List Bytes) (t : Bytes) → All P tags → is_in t tags ≡ true → P t
unfolding is_in
All-is_in P [] t hs h = ground arith
All-is_in P (tag ∷ tags) t (here, later) h = elim (is_in-cases t tag tags h) [
  | inl e ↦ rw (← e) here
  | inr e ↦ All-is_in P tags t later e
]

module _ {N : Type 0} where
  -- How many entries have a tag that was not seen.
  unfoldable pub unseen : List Bytes → List (Bytes × Json N) → ℕ
  unseen seen [] = 0
  unseen seen ((t, v) ∷ by_tag) = (if is_in t seen then 0 else 1) + unseen seen by_tag

  pub unseen_antitone :
      (small large : List Bytes) (by_tag : List (Bytes × Json N))
      → Includes small large
      → unseen large by_tag ≤ unseen small by_tag
  unfolding unseen
  unseen_antitone small large [] h = omega arith
  unseen_antitone small large ((t, v) ∷ by_tag) h =
      let later = unseen_antitone small large by_tag h in
      elim (Bool-cases (is_in t small)) [
        | inl e ↦ rw (e, h t e) (omega (arith, later))
        | inr e ↦ rw e (ground arith)
      ]

  pub unseen-length :
      (seen : List Bytes) (by_tag : List (Bytes × Json N)) → unseen seen by_tag ≤ length by_tag
  unfolding unseen
  unseen-length seen [] = omega arith
  unseen-length seen ((t, v) ∷ by_tag) = let later = unseen-length seen by_tag in ground arith

  -- A tag that is found and was not seen leaves fewer of them.
  pub unseen-cons :
      (tag : Bytes) (seen : List Bytes) (v : Json N) (by_tag : List (Bytes × Json N))
      → find_tag tag by_tag ≡ some v
      → is_in tag seen ≡ false
      → unseen (tag ∷ seen) by_tag < unseen seen by_tag
  unfolding unseen find_tag
  unseen-cons tag seen v [] found fresh = ground arith
  unseen-cons tag seen v ((t, w) ∷ by_tag) found fresh = elim (Option-cases (find_tag tag by_tag)) [
    | inl e ↦ last e (rw e at found)
    | inr (x, e) ↦
        let later = unseen-cons tag seen x by_tag e fresh in
        elim (Bool-cases (is_in t seen)) [
          | inl old ↦ rw (old, is_in-tail tag seen t old) (omega (arith, later))
          | inr new ↦ rw new (ground arith)
        ]
  ]
    where
      last :
          find_tag tag by_tag ≡ none
          → (if bytes_eq t tag then some w else none) ≡ some v
          → (if is_in t (tag ∷ seen) then 0 else 1) + unseen (tag ∷ seen) by_tag
            < (if is_in t seen then 0 else 1) + unseen seen by_tag
      last e hit = elim (Bool-cases (bytes_eq t tag)) [
        | inl same ↦
            let one = (bytes_eq_iff t tag).0 same in
            let here = ap (λ x. is_in x (tag ∷ seen)) one ∙ is_in-head tag seen in
            let new = ap (λ x. is_in x seen) one ∙ fresh in
            let later = unseen_antitone seen (tag ∷ seen) by_tag (is_in-tail tag seen) in
            rw (here, new) (omega (arith, later))
        | inr other ↦ let wrong = rw other at hit in ground arith
      ]
