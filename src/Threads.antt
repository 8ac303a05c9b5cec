-- ===== src/Threads.antt =====
-- Threads that share a state: each works off its own list of jobs and keeps a local state, and the
-- scheduler picks the thread that runs next. This is how libpaf/src/libpaf_core.c
-- (run_extract_parallel) and paf_parallel.h (parallel_sha256_cpu) split their work. A job is one step.
use paf_archive.Prelude.{◌≡◌, ap, sym, List, [], ◌∷◌, All, Any, ◌⊎◌, inl, inr}

-- A thread with its local state and the jobs that it has left.
pub record Thread {ℓ κ} (L : Type ℓ) (J : Type κ) : Type (ℓ ⊔ κ) where
  pub local : L
  pub jobs : List J

-- `run` does one job: it takes the local state and the shared one.
module _ {ℓ κ μ} {L : Type ℓ} {J : Type κ} {S : Type μ} (run : J → L → S → L × S) where
  -- One thread does its next job.
  pub data Step : List (Thread L J) → S → List (Thread L J) → S → Type (ℓ ⊔ κ ⊔ μ) where
    here :
        (j : J) (js : List J) (l l' : L) (s s' : S) (ts : List (Thread L J))
        → run j l s ≡ (l', s')
        → Step
            (record { local = l; jobs = j ∷ js } ∷ ts)
            s
            (record { local = l'; jobs = js } ∷ ts)
            s'
    there :
        (t : Thread L J) (ts ts' : List (Thread L J)) (s s' : S)
        → Step ts s ts' s'
        → Step (t ∷ ts) s (t ∷ ts') s'

  -- A schedule.
  pub data Steps : List (Thread L J) → S → List (Thread L J) → S → Type (ℓ ⊔ κ ⊔ μ) where
    stop : (ts : List (Thread L J)) (s : S) → Steps ts s ts s
    step :
        (ts ts' ts'' : List (Thread L J)) (s s' s'' : S)
        → Step ts s ts' s'
        → Steps ts' s' ts'' s''
        → Steps ts s ts'' s''

  -- No job is left.
  abbrev pub Finished : List (Thread L J) → Type κ
  Finished ts = All (λ (t : Thread L J). t.jobs ≡ []) ts

  -- The job is left to some thread.
  abbrev pub Left : J → List (Thread L J) → Type κ
  Left j ts = Any (λ (t : Thread L J). Any (λ (k : J). k ≡ j) t.jobs) ts

  -- What each job keeps holds behind a schedule.
  module _ {ν} (P : S → Type ν) (keep : (j : J) (l : L) (s : S) → P s → P (run j l s).1) where
    step-keeps : (ts ts' : List (Thread L J)) (s s' : S) → Step ts s ts' s' → P s → P s'
    step-keeps _ _ _ _ (here j js l l' s s' ts e) p =
        rw (ap (λ (x : L × S). x.1) (sym e)) (keep j l s p)
    step-keeps _ _ _ _ (there t ts ts' s s' st) p = step-keeps ts ts' s s' st p

    pub steps-keeps : (ts ts' : List (Thread L J)) (s s' : S) → Steps ts s ts' s' → P s → P s'
    steps-keeps _ _ _ _ (stop ts s) p = p
    steps-keeps _ _ _ _ (step ts ts' ts'' s s' s'' st sts) p =
        steps-keeps ts' ts'' s' s'' sts (step-keeps ts ts' s s' st p)

  -- Each job leaves its mark, from any local state that satisfies `I`, and no job removes the mark
  -- of another.
  module _ {ν ξ π} (I : L → Type ν) (Ok : J → Type ξ) (Mark : J → S → Type π)
      (local_kept : (j : J) (l : L) (s : S) → I l → I (run j l s).0)
      (marks : (j : J) (l : L) (s : S) → Ok j → I l → Mark j (run j l s).1)
      (mark_kept : (j k : J) (l : L) (s : S)
        → Ok j
        → Ok k
        → I l
        → Mark j s
        → Mark j (run k l s).1) where
    abbrev pub Ready : List (Thread L J) → Type (ξ ⊔ ν)
    Ready ts = All (λ (t : Thread L J). I t.local × All Ok t.jobs) ts

    Step-Ready : (ts ts' : List (Thread L J)) (s s' : S) → Step ts s ts' s' → Ready ts → Ready ts'
    Step-Ready _ _ _ _ (here j js l l' s s' ts e) ((i, oks'), r) =
        ((rw (ap (λ (x : L × S). x.0) (sym e)) (local_kept j l s i), oks'.1), r)
    Step-Ready _ _ _ _ (there t ts ts' s s' st) (i, r) = (i, Step-Ready ts ts' s s' st r)

    Step-Mark :
        (j : J) (ts ts' : List (Thread L J)) (s s' : S)
        → Ok j
        → Step ts s ts' s'
        → Ready ts
        → Mark j s
        → Mark j s'
    Step-Mark j _ _ _ _ ok (here k js l l' s s' ts e) ((i, oks'), r) mark =
        rw (ap (λ (x : L × S). x.1) (sym e)) (mark_kept j k l s ok oks'.0 i mark)
    Step-Mark j _ _ _ _ ok (there t ts ts' s s' st) (i, r) mark =
        Step-Mark j ts ts' s s' ok st r mark

    Step-Left :
        (j : J) (ts ts' : List (Thread L J)) (s s' : S)
        → Ok j
        → Step ts s ts' s'
        → Ready ts
        → Left j ts
        → Left j ts' ⊎ Mark j s'
    Step-Left j _ _ _ _ ok (here k js l l' s s' ts e) ((i, oks'), r) left = elim left [
      | inl x ↦ elim x [
        | inl same ↦
            inr (rw (sym same) (rw (ap (λ (x : L × S). x.1) (sym e)) (marks k l s oks'.0 i)))
        | inr y ↦ inl (inl y)
      ]
      | inr y ↦ inl (inr y)
    ]
    Step-Left j _ _ _ _ ok (there t ts ts' s s' st) (i, r) left = elim left [
      | inl x ↦ inl (inl x)
      | inr y ↦ elim (Step-Left j ts ts' s s' ok st r y) [ inl z ↦ inl (inr z) | inr z ↦ inr z ]
    ]

    all_marked :
        (j : J) (ts ts' : List (Thread L J)) (s s' : S)
        → Ok j
        → Steps ts s ts' s'
        → Ready ts
        → Left j ts ⊎ Mark j s
        → Left j ts' ⊎ Mark j s'
    all_marked j _ _ _ _ ok (stop ts s) r h = h
    all_marked j _ _ _ _ ok (step ts ts' ts'' s s' s'' st sts) r h =
        all_marked j ts' ts'' s' s'' ok sts (Step-Ready ts ts' s s' st r) (elim h [
          | inl x ↦ Step-Left j ts ts' s s' ok st r x
          | inr y ↦ inr (Step-Mark j ts ts' s s' ok st r y)
        ])

    no_job : (j : J) (js : List J) → js ≡ [] → Any (λ (k : J). k ≡ j) js → ⊥
    no_job j [] e x = elim x [ ]
    no_job j (k ∷ js) e x = absurd (cc)

    not-Left : (j : J) (ts : List (Thread L J)) → Finished ts → Left j ts → ⊥
    not-Left j [] f left = elim left [ ]
    not-Left j (t ∷ ts) (none_here, f) left = elim left [
      | inl x ↦ no_job j t.jobs none_here x
      | inr y ↦ not-Left j ts f y
    ]

    -- Behind a schedule that leaves no job, each job has left its mark.
    pub finished-Mark :
        (j : J) (ts ts' : List (Thread L J)) (s s' : S)
        → Ok j
        → Ready ts
        → Left j ts
        → Steps ts s ts' s'
        → Finished ts'
        → Mark j s'
    finished-Mark j ts ts' s s' ok r left sts done =
        elim (all_marked j ts ts' s s' ok sts r (inl left)) [
          | inl x ↦ absurd (not-Left j ts' done x)
          | inr y ↦ y
        ]
