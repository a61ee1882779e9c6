-- ===== src/Scripts/Load/Measured.antt =====
-- What a task measures: ten timings of writes and ten of reads, whose extremes and means it writes.
use indy_perf.Base.{ℕ, zero, suc, ◌+◌, ◌≡◌, refl, ap, String, List, [], ◌∷◌, length}
use indy_perf.Json.{JsonText}
use indy_perf.Timings.{Timing, start}
use indy_perf.Timings.Bounds.{Le, IsOrder, greater-Le, lesser-Le}
use indy_perf.Scripts.Calls.{
  create_and_store_my_did, build_nym_request, build_get_nym_request, sign_and_submit_request,
  submit_request,
}
use indy_perf.Scripts.Program.{Content, json}
use indy_perf.Scripts.Tasks.Shared.{
  Neutral, IsTask, IsTask-ret, IsTask-say, IsTask-write, IsTask-ask, IsTask-throw, IsTask-bind,
  IsTask-reporting, IsTask-weaken, IsIndyError, Any, task_rules,
}
use indy_perf.Scripts.Tasks.Turns.{AreTasks}
use indy_perf.Scripts.Load.{
  Times, did_json, added, timed_write, timed_read, rounds, results, result_file, measure, tasks,
}

module _ (p w : ℕ) where
  Neutral-create_did : (did : JsonText) → Neutral p w (create_and_store_my_did w did)
  Neutral-create_did did h a b = (b, λ r. (a, b))

  Neutral-build_nym :
      (submitter target key role : String)
      → Neutral p w (build_nym_request submitter target key role)
  Neutral-build_nym submitter target key role h a b = (tt, λ r. (a, b))

  Neutral-build_get_nym :
      (submitter target : String) → Neutral p w (build_get_nym_request submitter target)
  Neutral-build_get_nym submitter target h a b = (tt, λ r. (a, b))

  Neutral-sign :
      (submitter : String) (request : JsonText)
      → Neutral p w (sign_and_submit_request p w submitter request)
  Neutral-sign submitter request h a b = ((a, b), λ r. (a, b))

  Neutral-submit : (request : JsonText) → Neutral p w (submit_request p request)
  Neutral-submit request h a b = (a, λ r. (a, b))

ruleset neutral_rules =
    (Neutral-create_did, Neutral-build_nym, Neutral-build_get_nym, Neutral-sign, Neutral-submit)

module _ {F : Type 0} (f : Times F) where
  -- The statistics of timings, from those before.
  abbrev pub stats : Timing F → List F → Timing F
  stats t [] = t
  stats t (x ∷ xs) = stats (added f t x) xs

  -- Every timing lies between the least and the greatest.
  abbrev pub Within : Timing F → List F → Type 0
  Within t [] = Unit
  Within t (x ∷ xs) = Le f.floats x t.longest × Le f.floats t.shortest x × Within t xs

  module _ (o : IsOrder f.floats) where
    stats-Le :
        (xs : List F) (t : Timing F)
        → Le f.floats t.longest (stats t xs).longest × Le f.floats (stats t xs).shortest t.shortest
    unfolding added
    stats-Le [] t = (o.lt_irrefl _, o.lt_irrefl _)
    stats-Le (x ∷ xs) t =
        let (up, down) = stats-Le xs (added f t x) in
        (
          o.le_trans _ _ _ (greater-Le f.floats o x t.longest).1 up,
          o.le_trans _ _ _ down (lesser-Le f.floats o x t.shortest).1,
        )

    stats-Within : (xs : List F) (t : Timing F) → Within (stats t xs) xs
    unfolding added
    stats-Within [] t = tt
    stats-Within (x ∷ xs) t =
        let (up, down) = stats-Le xs (added f t x) in
        (
          o.le_trans _ _ _ (greater-Le f.floats o x t.longest).0 up,
          o.le_trans _ _ _ down (lesser-Le f.floats o x t.shortest).0,
          stats-Within xs (added f t x),
        )

  -- The file of a task: the statistics of some ten floats for the writes, and of ten for the reads.
  pub record IsResult (path : String) (c : Content) : Type 0 where
    pub thread : String
    pub task : ℕ
    pub writes : List F
    pub reads : List F
    pub named : path ≡ result_file f thread task
    pub ten_writes : length writes ≡ 10
    pub ten_reads : length reads ≡ 10
    pub content :
        c ≡ json (results f (stats (start f.floats) writes) (stats (start f.floats) reads))
    pub writes_within : Within (stats (start f.floats) writes) writes
    pub reads_within : Within (stats (start f.floats) reads) reads

  -- What `n` rounds make of the statistics before.
  abbrev Rounds : ℕ → Timing F → Timing F → Timing F × Timing F → Type 0
  Rounds n a b (a', b') =
      (writes : List F) × (reads : List F) × (length writes ≡ n)
      × (length reads ≡ n)
      × (a' ≡ stats a writes)
      × (b' ≡ stats b reads)

  Rounds-cons :
      (n : ℕ) (a b : Timing F) (x y : F) (r : Timing F × Timing F)
      → Rounds n (added f a x) (added f b y) r
      → Rounds (suc n) a b r
  Rounds-cons n a b x y (a', b') (writes, reads, k, l, e, e') =
      (x ∷ writes, y ∷ reads, ap suc k, ap suc l, e, e')

  measured :
      (o : IsOrder f.floats) (thread : String) (i : ℕ) (r : Timing F × Timing F)
      → Rounds 10 (start f.floats) (start f.floats) r
      → IsResult (result_file f thread i) (json (results f r.0 r.1))
  measured o thread i (a', b') (writes, reads, k, l, e, e') = record {
    thread = thread;
    task = i;
    writes = writes;
    reads = reads;
    named = refl;
    ten_writes = k;
    ten_reads = l;
    content = rw (e, e') refl;
    writes_within = stats-Within o writes (start f.floats);
    reads_within = stats-Within o reads (start f.floats);
  }

  module _ (P : String → Content → Type 0) (p w : ℕ) where
    timed_write-IsTask : (did : String) → IsTask p w IsIndyError P Any (timed_write f w p did)
    unfolding timed_write
    timed_write-IsTask did = search (task_rules, neutral_rules) depth 40

    timed_read-IsTask : (did : String) → IsTask p w IsIndyError P Any (timed_read f w p did)
    unfolding timed_read
    timed_read-IsTask did = search (task_rules, neutral_rules) depth 40

    rounds-IsTask :
        (n : ℕ) (did : String) (a b : Timing F)
        → IsTask p w IsIndyError P (Rounds n a b) (rounds f n w p did a b)
    unfolding rounds
    rounds-IsTask zero did a b = IsTask-ret _ ([], [], refl, refl, refl, refl)
    rounds-IsTask (suc n) did a b =
        IsTask-bind _
          (λ x _.
            IsTask-bind _
              (λ y _. IsTask-say _ _ (
                IsTask-weaken _ _ _ _ (Rounds-cons n a b x y) _
                  (rounds-IsTask n did (added f a x) (added f b y))))
              _ (timed_read-IsTask did))
          _ (timed_write-IsTask did)

  module _ (o : IsOrder f.floats) (p w : ℕ) where
    measure-IsTask :
        (thread : String) (i : ℕ) → IsTask p w IsIndyError IsResult Any (measure f thread i w p)
    unfolding measure
    measure-IsTask thread i =
        IsTask-ask _ _ (Neutral-create_did p w did_json)
          (λ steward.
            IsTask-bind _ (λ r q. IsTask-write _ _ _ (measured o thread i r q) (IsTask-ret tt tt)) _
              (rounds-IsTask IsResult p w 10 steward.0 (start f.floats) (start f.floats)))
          (λ e. IsTask-throw _ tt)

    pub tasks-AreTasks :
        (thread : String) (n i : ℕ) → AreTasks IsResult p w (tasks f thread n i w p)
    unfolding tasks
    tasks-AreTasks thread zero i = tt
    tasks-AreTasks thread (suc n) i = (
      IsTask-say _ _ (IsTask-reporting F p w IsResult _ (measure-IsTask thread i)),
      tasks-AreTasks thread n (i + 1),
    )
