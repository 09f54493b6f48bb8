-- ===== src/Runs/Evolution.antt =====
-- What never changes about a run in the repository of backend/core/runs/repository.py while it is
-- not deleted: its names, its origin, the terminal status once it has one, and its log but for
-- what is added at the end.
pub mod Methods
use chat_tree.Prelude.{
  ℕ, String, ◌≡◌, refl, sym, ◌≢◌, ◌==◌, eq_iff, Bool-cases, inl, inr, Option, none, some, List, [],
  ◌∷◌, ◌++◌, append-nil, append_assoc, true, false, subst, ap, ◌∙◌, some-cancel, if◌then◌else◌,
  arith,
}
use chat_tree.Dict.{Dict, get, insert}
use chat_tree.Dict.Keys.{get-insert_self, get-insert_ne}
use chat_tree.Runs.Types.{Run, Event, Repository, is_finished}

pub record Later (run run' : Run) : Type 0 where
  pub named : (run'.id ≡ run.id) × (run'.run_id ≡ run.run_id)
  pub origin : (run'.conversation_id ≡ run.conversation_id) × (run'.kind ≡ run.kind)
  pub keyed :
      (run'.idempotency_key ≡ run.idempotency_key)
      × (run'.request_fingerprint ≡ run.request_fingerprint)
  pub created : run'.created_at ≡ run.created_at
  -- A terminal status and the time of the end are final.
  pub frozen :
      is_finished run.status ≡ true
      → (run'.status ≡ run.status) × (run'.finished_at ≡ run.finished_at)

pub Later-refl : (run : Run) → Later run run
Later-refl run = record {
  named = (refl, refl);
  origin = (refl, refl);
  keyed = (refl, refl);
  created = refl;
  frozen = λ h. (refl, refl);
}

pub Later-trans : {a b c : Run} → Later a b → Later b c → Later a c
Later-trans {a} {b} {c} p q = record {
  named = (q.named.0 ∙ p.named.0, q.named.1 ∙ p.named.1);
  origin = (q.origin.0 ∙ p.origin.0, q.origin.1 ∙ p.origin.1);
  keyed = (q.keyed.0 ∙ p.keyed.0, q.keyed.1 ∙ p.keyed.1);
  created = q.created ∙ p.created;
  frozen = λ h.
      let (e, f) = p.frozen h in let (e', f') = q.frozen (ap is_finished e ∙ h) in (e' ∙ e, f' ∙ f);
}

-- The run `k` of `s` is still in `s'`, and its log only grew at the end.
pub record Kept (k : String) (s s' : Repository) : Type 0 where
  pub run : (r : Run) → get k s.runs ≡ some r → (r' : Run) × (get k s'.runs ≡ some r') × Later r r'
  pub log :
      (es : List Event)
      → get k s.events ≡ some es
      → (more : List Event) × (get k s'.events ≡ some (es ++ more))

pub Kept-refl : (k : String) (s : Repository) → Kept k s s
Kept-refl k s = record {
  run = λ r h. (r, h, Later-refl r);
  log = λ es h. ([], h ∙ ap some (sym (append-nil es)));
}

pub Kept-trans : {k : String} {s t u : Repository} → Kept k s t → Kept k t u → Kept k s u
Kept-trans a b = record {
  run = λ r h.
      let (r', h', l) = a.run r h in
      let (r'', h'', l') = b.run r' h' in (r'', h'', Later-trans l l');
  log = λ es h.
      let (more, h') = a.log es h in
      let (more', h'') = b.log (es ++ more) h' in
      (more ++ more', h'' ∙ ap some (append_assoc es more more'));
}

-- Writing a later version of a run that is there.
pub put-Kept :
    (k t : String) (s : Repository) {run : Run} (run' : Run)
    → get t s.runs ≡ some run
    → Later run run'
    → Kept k s (record s { runs = insert t run' s.runs })
put-Kept k t s {run} run' there later = elim (Bool-cases (t == k)) [
  | inl e ↦
      let tk : t ≡ k = (eq_iff t k).0 e in
      record {
        run = λ r h. (
          run',
          ap (λ x. get x (insert t run' s.runs)) (sym tk) ∙ get-insert_self t run' s.runs,
          subst (λ x. Later x run') (some-cancel (sym there ∙ ap (λ x. get x s.runs) tk ∙ h)) later,
        );
        log = (Kept-refl k s).log;
      }
  | inr n ↦ record {
    run = λ r h.
        (r, get-insert_ne t k run' s.runs (λ p. cc (n, (eq_iff t k).1 (sym p))) ∙ h, Later-refl r);
    log = (Kept-refl k s).log;
  }
]

-- Writing a longer log.
pub log-Kept :
    (k t : String) (s : Repository) (es more : List Event)
    → get t s.events ≡ some es
    → Kept k s (record s { events = insert t (es ++ more) s.events })
log-Kept k t s es more there = elim (Bool-cases (t == k)) [
  | inl e ↦
      let tk : t ≡ k = (eq_iff t k).0 e in
      record {
        run = (Kept-refl k s).run;
        log = λ es' h. (
          more,
          ap (λ x. get x (insert t (es ++ more) s.events)) (sym tk)
              ∙ get-insert_self t (es ++ more) s.events
              ∙ ap (λ l. some (l ++ more))
                  (some-cancel (sym there ∙ ap (λ x. get x s.events) tk ∙ h)),
        );
      }
  | inr n ↦ record {
    run = (Kept-refl k s).run;
    log = λ es' h. (
      [],
      get-insert_ne t k (es ++ more) s.events (λ p. cc (n, (eq_iff t k).1 (sym p)))
          ∙ h
          ∙ ap some (sym (append-nil es')),
    );
  }
]
