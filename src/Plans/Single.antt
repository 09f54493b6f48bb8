-- ===== src/Plans/Single.antt =====
-- That a conversation has one open plan at most, in backend/core/plans/ledger.py.
use chat_tree.Prelude.{
  String, ◌≡◌, refl, sym, ap, ◌∙◌, subst, ◌==◌, eq_iff, Bool, true, false, Option, none, some, List,
  [], ◌∷◌, if◌then◌else◌, arith, ◌⊎◌, inl, inr, Bool-cases, Option-cases, some-cancel, All, ok,
  ok-injective,
}
use chat_tree.Plans.Types.{Plan, Tables, is_open}
use chat_tree.Plans.Table.{
  is_plan, find_plan, update_plan, required, change_plan, newest, select_newest, is_newer,
}

-- Another plan, and no second open one of the same conversation.
abbrev pub IsOther : Plan → Plan → Type 0
IsOther p q =
    ((q.id == p.id) ≡ false)
    × (is_open p.status ≡ true
        → (q.conversation_id == p.conversation_id) ≡ true
        → is_open q.status ≡ false)

abbrev pub AreSingle : List Plan → Type 0
AreSingle [] = Unit
AreSingle (p ∷ ps) = All (IsOther p) ps × AreSingle ps

-- The same plan, open only if it was.
abbrev pub IsWeaker : Plan → Plan → Type 0
IsWeaker p' p =
    (p'.id ≡ p.id)
    × (p'.conversation_id ≡ p.conversation_id)
    × (is_open p'.status ≡ true → is_open p.status ≡ true)

weaker-IsOther : (p' p q' q : Plan) → IsWeaker p' p → IsWeaker q' q → IsOther p q → IsOther p' q'
weaker-IsOther p' p q' q (i, c, o) (j, d, u) (ne, one) = (
  ap (λ k. k == p'.id) j ∙ ap (λ k. q.id == k) i ∙ ne,
  λ h e. elim (Bool-cases (is_open q'.status)) [
    | inl was ↦
        let same =
          sym (ap (λ k. k == p'.conversation_id) d ∙ ap (λ k. q.conversation_id == k) c) ∙ e in
        absurd (cc (u was, one (o h) same))
    | inr shut ↦ shut
  ],
)

module _ (conversation_id plan_id : String) (change : Plan → Plan) where
  abbrev IsFine : Plan → Type 0
  IsFine p = is_plan conversation_id plan_id p ≡ true → IsWeaker (change p) p

  changed-IsWeaker :
      (p : Plan) → IsFine p → IsWeaker (if is_plan conversation_id plan_id p then change p else p) p
  changed-IsWeaker p fine = elim (Bool-cases (is_plan conversation_id plan_id p)) [
    | inl e ↦ rw e (fine e)
    | inr e ↦ rw e (refl, refl, λ h. h)
  ]

  others_updated :
      (p' p : Plan) (ps : List Plan)
      → IsWeaker p' p
      → All IsFine ps
      → All (IsOther p) ps
      → All (IsOther p') (update_plan conversation_id plan_id change ps)
  unfolding update_plan
  others_updated p' p [] w f o = tt
  others_updated p' p (q ∷ ps) w (f, fs) (o, os) = (
    weaker-IsOther p' p (if is_plan conversation_id plan_id q then change q else q) q w
        (changed-IsWeaker q f) o,
    others_updated p' p ps w fs os,
  )

  pub update_plan-AreSingle :
      (ps : List Plan)
      → All IsFine ps
      → AreSingle ps
      → AreSingle (update_plan conversation_id plan_id change ps)
  unfolding update_plan
  update_plan-AreSingle [] f a = tt
  update_plan-AreSingle (p ∷ ps) (f, fs) (o, a) = (
    others_updated (if is_plan conversation_id plan_id p then change p else p) p ps
        (changed-IsWeaker p f) fs o,
    update_plan-AreSingle ps fs a,
  )

-- The row with the identifier of a plan of the list is that plan.
abbrev pub IsThat : (Plan → Type 0) → String → Plan → Type 0
IsThat P i q = (q.id == i) ≡ true → P q

others-IsThat :
    (P : Plan → Type 0) (p : Plan) (ps : List Plan) → All (IsOther p) ps → All (IsThat P p.id) ps
others-IsThat P p [] o = tt
others-IsThat P p (q ∷ ps) (o, os) = ((λ h. absurd (cc (h, o.0))), others-IsThat P p ps os)

others_plan :
    (P : Plan → Type 0) (k i : String) (q : Plan) (ps : List Plan)
    → is_plan k i q ≡ true
    → All (IsOther q) ps
    → All (λ q'. is_plan k i q' ≡ true → P q') ps
others_plan P k i q [] e o = tt
others_plan P k i q (q' ∷ ps) e (o, os) = (
  (λ e'.
      let a : (q.id == i) ≡ true = ground arith in
      let b : (q'.id == i) ≡ true = ground arith in
      let same : q'.id ≡ q.id = (eq_iff q'.id i).0 b ∙ sym ((eq_iff q.id i).0 a) in
      absurd (cc (o.0, (eq_iff q'.id q.id).1 same))),
  others_plan P k i q ps e os,
)

newest_cases :
    (q : Plan) (rest : Option Plan) {p : Plan} → newest q rest ≡ some p → (q ≡ p) ⊎ (rest ≡ some p)
newest_cases q none h = inl (some-cancel h)
newest_cases q (some r) h = elim (Bool-cases (is_newer q r)) [
  | inl e ↦ inl (some-cancel (rw e at h))
  | inr e ↦ inr (rw e at h)
]

newest_some : (q : Plan) (rest : Option Plan) → newest q rest ≡ none → ⊥
newest_some q none h = cc h
newest_some q (some r) h = elim (Bool-cases (is_newer q r)) [
  | inl e ↦ cc (rw e at h)
  | inr e ↦ cc (rw e at h)
]

pub find_plan_that :
    (P : Plan → Type 0) (k i : String) (ps : List Plan) {p : Plan}
    → AreSingle ps
    → find_plan k i ps ≡ some p
    → P p
    → All (λ q. is_plan k i q ≡ true → P q) ps
unfolding find_plan
find_plan_that P k i [] a h x = tt
find_plan_that P k i (q ∷ ps) {p} (o, a) h x = elim (Bool-cases (is_plan k i q)) [
  | inl e ↦
      let same : q ≡ p = some-cancel (rw e at h) in
      ((λ e'. subst P (sym same) x), others_plan P k i q ps e o)
  | inr e ↦ ((λ e'. absurd (cc (e, e'))), find_plan_that P k i ps a (rw e at h) x)
]

select_all :
    (P : Plan → Type 0) (keep : Plan → Bool) (ps : List Plan) {p : Plan}
    → All P ps
    → select_newest keep ps ≡ some p
    → P p
unfolding select_newest
select_all P keep [] a h = absurd (cc h)
select_all P keep (q ∷ ps) {p} (x, a) h = elim (Bool-cases (keep q)) [
  | inl e ↦ elim (newest_cases q (select_newest keep ps) (rw e at h)) [
    | inl same ↦ subst P same x
    | inr later ↦ select_all P keep ps a later
  ]
  | inr e ↦ select_all P keep ps a (rw e at h)
]

pub select_none :
    (keep : Plan → Bool) (ps : List Plan)
    → select_newest keep ps ≡ none
    → All (λ q. keep q ≡ false) ps
unfolding select_newest
select_none keep [] h = tt
select_none keep (q ∷ ps) h = elim (Bool-cases (keep q)) [
  | inl e ↦ absurd (newest_some q (select_newest keep ps) (rw e at h))
  | inr e ↦ (e, select_none keep ps (rw e at h))
]

-- The plan that is selected is the only one with its identifier.
pub select-IsThat :
    (keep : Plan → Bool) (ps : List Plan) {p : Plan}
    → AreSingle ps
    → select_newest keep ps ≡ some p
    → All (IsThat (λ q. keep q ≡ true) p.id) ps
unfolding select_newest
select-IsThat keep [] a h = tt
select-IsThat keep (q ∷ ps) {p} (o, a) h = elim (Bool-cases (keep q)) [
  | inl e ↦ elim (newest_cases q (select_newest keep ps) (rw e at h)) [
    | inl same ↦ (
      (λ i. e),
      subst (λ (x : Plan). All (IsThat (λ q'. keep q' ≡ true) x.id) ps) same
          (others-IsThat _ q ps o),
    )
    | inr later ↦ ((λ i. e), select-IsThat keep ps a later)
  ]
  | inr e ↦
      let other = select_all (IsOther q) keep ps o (rw e at h) in
      (
        (λ i. absurd (cc (other.0, (eq_iff p.id q.id).1 (sym ((eq_iff q.id p.id).0 i))))),
        select-IsThat keep ps a (rw e at h),
      )
]

-- A change that leaves the names of a plan.
abbrev pub KeepsNames : (Plan → Plan) → Type 0
KeepsNames change =
    (p : Plan) → ((change p).id ≡ p.id) × ((change p).conversation_id ≡ p.conversation_id)

required-eq :
    (i : String) (o : Option Plan) (s : Tables) {p : Plan} {s' : Tables}
    → required i o s ≡ ok (p, s')
    → s ≡ s'
required-eq i none s h = absurd (cc h)
required-eq i (some q) s h = ap (λ x. x.1) (ok-injective h)

-- An open plan may be changed in any way.
pub open_fine :
    (k i : String) (change : Plan → Plan) (ps : List Plan)
    → KeepsNames change
    → All (λ q. is_plan k i q ≡ true → is_open q.status ≡ true) ps
    → All (λ q. is_plan k i q ≡ true → IsWeaker (change q) q) ps
open_fine k i change [] names h = tt
open_fine k i change (q ∷ ps) names (h, hs) =
    ((λ e. ((names q).0, (names q).1, λ was. h e)), open_fine k i change ps names hs)

pub change_plan-AreSingle :
    (k i : String) (valid : Bool) (change : Plan → Plan) (s : Tables) {p : Plan} {s' : Tables}
    → AreSingle s.plans
    → All (λ q. is_plan k i q ≡ true → IsWeaker (change q) q) s.plans
    → change_plan k i valid change s ≡ ok (p, s')
    → AreSingle s'.plans
unfolding change_plan
change_plan-AreSingle k i valid change s a fine h = elim (Option-cases (find_plan k i s.plans)) [
  | inl e ↦ absurd (cc (rw (e, change_plan) at h))
  | inr (q, e) ↦
      let h' = rw (e, change_plan) at h in
      elim (Bool-cases valid) [
        | inl v ↦
            subst (λ (x : Tables). AreSingle x.plans) (required-eq i _ _ (rw v at h'))
              (update_plan-AreSingle k i change s.plans fine a)
        | inr v ↦ absurd (cc (rw v at h'))
      ]
]
