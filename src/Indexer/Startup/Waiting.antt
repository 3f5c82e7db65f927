-- ===== src/Indexer/Startup/Waiting.antt =====
-- The wait for the database ends.
use semconv_graph.Base.{
  ℕ, zero, suc, ◌+◌, ◌-◌, ◌≤◌, String, true, false, Option, some, Result, ok, err, ltb, ◌≡◌, refl,
  arith, Bool-cases, Result-cases, inl, inr,
}
use semconv_graph.Indexer.Database.{TopologyFailure, timed_out, Database}
use semconv_graph.Indexer.Startup.{Clock, retried, minimum, poll_version, wait_for_database}

-- Time does not run backwards, a call of the clock gives the time at its end, and a sleep lasts as long as it is asked to.
pub record IsMonotonic (D : Database) (C : Clock D.State) : Type 0 where
  pub time : D.State → ℕ
  pub read :
      (s : D.State) → (time s ≤ (C.monotonic s).0) × (time (C.monotonic s).1 ≡ (C.monotonic s).0)
  pub version_takes : (s : D.State) → time s ≤ time (D.version s).1
  pub sleeps : (n : ℕ) (s : D.State) → time s + n ≤ time (C.sleep n s)

-- The ticks of that many rounds.
unfoldable pub ticks : ℕ → ℕ → ℕ
ticks zero second = 0
ticks (suc n) second = second + ticks n second

module _ (D : Database) (C : Clock D.State) (M : IsMonotonic D C) where
  -- How a wait may end: by an answer, by an error that is not retried, or by the deadline, which has passed.
  pub data Ended (deadline : ℕ) : Result TopologyFailure String → D.State → Type 0 where
    answered :
        (s : D.State) (v : String) → (D.version s).0 ≡ ok v → Ended deadline (ok v) (D.version s).1
    raised :
        (s : D.State) (e : TopologyFailure)
        → (D.version s).0 ≡ err e
        → retried C.is_retried e ≡ false
        → Ended deadline (err e) (D.version s).1
    expired : (t : D.State) → deadline ≤ M.time t → Ended deadline (err timed_out) t

  abbrev pub Ends : ℕ → Option (Result TopologyFailure String × D.State) → Type 0
  Ends deadline o =
      (r : Result TopologyFailure String) × (t : D.State) × (o ≡ some (r, t)) × Ended deadline r t

  -- A round that sleeps brings the deadline nearer by a second, or reaches it.
  after_sleep :
      (n deadline : ℕ) (s : D.State)
      → deadline ≤ M.time s + ticks (suc n) C.second
      → ltb (C.monotonic s).0 deadline ≡ true
      → (let failed = C.monotonic (D.version (C.monotonic s).1).1 in
          deadline
          ≤ M.time (C.sleep (minimum C.second (deadline - failed.0)) failed.1) + ticks n C.second)
  unfolding ticks
  after_sleep n deadline s enough early =
      let asked = C.monotonic s in
      let answer = D.version asked.1 in
      let failed = C.monotonic answer.1 in
      let (r1, r2) = M.read s in
      let took = M.version_takes asked.1 in
      let (r3, r4) = M.read answer.1 in
      let slept = M.sleeps (minimum C.second (deadline - failed.0)) failed.1 in ground arith

  past :
      (s : D.State) (deadline : ℕ)
      → ltb (C.monotonic s).0 deadline ≡ false
      → deadline ≤ M.time (C.monotonic s).1
  past s deadline late = let (r1, r2) = M.read s in ground arith

  poll_version-Ends :
      (n deadline : ℕ) (s : D.State)
      → deadline ≤ M.time s + ticks n C.second
      → Ends deadline (poll_version D C (suc n) deadline s)
  unfolding poll_version ticks
  poll_version-Ends zero deadline s enough =
      let (r1, r2) = M.read s in
      let late : ltb (C.monotonic s).0 deadline ≡ false = ground arith in
      rw late
        (err timed_out, (C.monotonic s).1, refl, expired (C.monotonic s).1 (past s deadline late))
  poll_version-Ends (suc n) deadline s enough =
      let asked = C.monotonic s in
      let answer = D.version asked.1 in
      let failed = C.monotonic answer.1 in
      elim (Bool-cases (ltb asked.0 deadline)) [
        | inl early ↦ rw early (elim (Result-cases answer.0) [
          | inl (e, failure) ↦ rw failure (elim (Bool-cases (retried C.is_retried e)) [
            | inl again ↦
                rw again (poll_version-Ends n deadline _ (after_sleep n deadline s enough early))
            | inr final ↦ rw final (err e, answer.1, refl, raised asked.1 e failure final)
          ])
          | inr (v, version) ↦ rw version (ok v, answer.1, refl, answered asked.1 v version)
        ])
        | inr late ↦ rw late (err timed_out, asked.1, refl, expired asked.1 (past s deadline late))
      ]

  -- The wait ends, within as many rounds as the deadline has seconds and one more: with a version that the
  -- database answered, with an error that is not retried, or timed out after the deadline has passed.
  pub wait_for_database-Ends :
      (fuel deadline_seconds : ℕ) (s : D.State)
      → deadline_seconds ≤ ticks fuel C.second
      → Ends
          ((C.monotonic s).0 + deadline_seconds)
          (wait_for_database D C (suc fuel) deadline_seconds s)
  unfolding wait_for_database
  wait_for_database-Ends fuel deadline_seconds s enough =
      let (r1, r2) = M.read s in
      poll_version-Ends fuel ((C.monotonic s).0 + deadline_seconds) (C.monotonic s).1 (ground arith)
