-- ===== src/Poll/Readers.antt =====
-- What a reader finds after any turns of the loop.
use argo_workflows_exporter.Base.{
  ℕ, String, ◌≡◌, ◌≢◌, refl, sym, ap, subst, ◌∙◌, ◌⊎◌, inl, inr, Bool, true, false, Option, some,
  some_injective, List, [], ◌∷◌,
}
use argo_workflows_exporter.Base.Lists.{All, IsPairwise}
use argo_workflows_exporter.Base.Results.{Result, ok}
use argo_workflows_exporter.Json.{Value}
use argo_workflows_exporter.Taxonomy.{TextTools, Rule}
use argo_workflows_exporter.Sidecar.{Sidecar, sidecar_value}
use argo_workflows_exporter.Storage.{Bytes, Pyarrow, object_key}
use argo_workflows_exporter.Consumer.{Publication, Moment, CycleBound, meta_id}
use argo_workflows_exporter.Consumer.Read.{checked_at, fresh_result, read_generation_result}
use argo_workflows_exporter.Consumer.Reading.{IsRead}
use argo_workflows_exporter.Cycle.{Store, Config, CycleEnd, Generation, new_generation_id}
use argo_workflows_exporter.Cycle.Publish.{
  Stage, none_put, workflows_put, runs_put, meta_put, IsComputed, run_cycle-cases,
}
use argo_workflows_exporter.Cycle.Commit.{
  Holds, with_workflows-meta, with_runs-meta, with_meta-Holds,
}
use argo_workflows_exporter.Cycle.Parts.{get_from, IsStamped, workflows-id, computed-Parts}
use argo_workflows_exporter.Cycle.Fresh.{sidecar-meta_id}
use argo_workflows_exporter.Cycle.Atomic.{
  IsStored, IsNew, IsRead-IsStored, Stage-IsRead, fresh-IsRead,
}
use argo_workflows_exporter.Poll.{Turn, PollState, goes_on, cycle_end, run_turn, run_poll_loop}
use argo_workflows_exporter.Poll.Healthy.{IsTaken}

abbrev pub turn_id : Turn → String
turn_id turn = new_generation_id turn.calls

module _ (loads : Bytes → Result Value) (cfg : Config) (id : String) where
  same_marker :
      (s store : Store)
      → s (object_key cfg.dest_prefix "meta.json") ≡ store (object_key cfg.dest_prefix "meta.json")
      → IsNew loads cfg id store
      → IsNew loads cfg id s
  same_marker s store e new b v h l = new b v (sym e ∙ h) l

  -- An id that is new to the marker of a store and is not the generation's is new after an upload.
  Stage-IsNew :
      (g : Generation) (store s : Store) (end : CycleEnd) (other : String)
      → ((v : Value) → loads g.meta_payload ≡ ok v → meta_id v ≡ some other)
      → other ≢ id
      → Stage cfg g store s end
      → IsNew loads cfg id store
      → IsNew loads cfg id s
  Stage-IsNew g store s end other marks differs (none_put e n) new =
      same_marker s store (ap (λ x. x (object_key cfg.dest_prefix "meta.json")) e) new
  Stage-IsNew g store s end other marks differs (workflows_put e n) new =
      same_marker s store
        (ap (λ x. x (object_key cfg.dest_prefix "meta.json")) e ∙ with_workflows-meta cfg g store)
        new
  Stage-IsNew g store s end other marks differs (runs_put e n) new =
      same_marker s store
        (ap (λ x. x (object_key cfg.dest_prefix "meta.json")) e ∙ with_runs-meta cfg g store) new
  Stage-IsNew g store s end other marks differs (meta_put e) new = λ b v h l k.
      let held : Holds cfg g s = rw e (with_meta-Holds cfg g store) in
      let same : b ≡ g.meta_payload = some_injective (sym h ∙ held.meta_held) in
      differs (some_injective (sym (marks v (ap loads (sym same) ∙ l)) ∙ k))

module _ (T : TextTools) (rules : List Rule) (P : Pyarrow) (dumps : Value → Bytes)
    (loads : Bytes → Result Value) (cfg : Config) where
  -- Parquet gives back the id of the turn, and `json.loads` that of a sidecar that was written
  -- with it.
  pub record IsOrdinary (turn : Turn) : Type 0 where
    pub stamped : IsStamped P (turn_id turn)
    pub decoded :
        (c : Sidecar) (v : Value)
        → c.generation_id ≡ turn_id turn
        → loads (dumps (sidecar_value c)) ≡ ok v
        → meta_id v ≡ meta_id (sidecar_value c)

  -- a turn of the loop that left the three objects of its generation in the bucket, which are the
  -- publication's
  pub record IsLeft (running : Bool) (ts : List Turn) (start : PollState) (p : Publication)
      : Type 0 where
    pub turn : Turn
    pub before : PollState
    pub taken : IsTaken T rules P dumps cfg turn before running ts start
    pub generation : Generation
    pub computed : IsComputed T rules P dumps cfg turn.calls generation
    pub held : Holds cfg generation (run_turn T rules P dumps cfg turn before).store
    pub is_stored : IsStored loads cfg p (run_turn T rules P dumps cfg turn before).store

  pub marks_id :
      (turn : Turn) (g : Generation)
      → IsOrdinary turn
      → IsComputed T rules P dumps cfg turn.calls g
      → (v : Value) → loads g.meta_payload ≡ ok v
      → meta_id v ≡ some (turn_id turn)
  marks_id turn g ordinary c v l =
      let parts = computed-Parts T rules P dumps cfg turn.calls g c in
      ordinary.decoded g.sidecar v (ap (λ x. x.generation_id) parts.sidecar_is)
        (ap loads (sym parts.meta_is) ∙ l)
      ∙ ap (λ x. meta_id (sidecar_value x)) parts.sidecar_is
      ∙ sidecar-meta_id cfg turn.calls parts.rows parts.stats parts.merged

  turn-IsNew :
      (turn : Turn) (s : PollState) (id : String)
      → IsOrdinary turn
      → turn_id turn ≢ id
      → IsNew loads cfg id s.store
      → IsNew loads cfg id (run_turn T rules P dumps cfg turn s).store
  unfolding run_turn
  turn-IsNew turn s id ordinary differs new =
      elim (run_cycle-cases T rules P dumps cfg turn.calls s.store) [
        | inl (e, n) ↦ subst (IsNew loads cfg id) (sym e) new
        | inr (g, c, stage) ↦
            Stage-IsNew loads cfg id g s.store _ _ (turn_id turn) (marks_id turn g ordinary c)
              differs stage new
      ]

  All-IsNew :
      (turn : Turn) (s : PollState) (ts : List Turn)
      → IsOrdinary turn
      → All (λ t. turn_id turn ≢ turn_id t) ts
      → All (λ t. IsNew loads cfg (turn_id t) s.store) ts
      → All (λ t. IsNew loads cfg (turn_id t) (run_turn T rules P dumps cfg turn s).store) ts
  All-IsNew turn s [] ordinary differ new = tt
  All-IsNew turn s (t ∷ ts) ordinary differ new = (
    turn-IsNew turn s (turn_id t) ordinary differ.0 new.0,
    All-IsNew turn s ts ordinary differ.1 new.1,
  )

  module _ (begun : Bool) (all : List Turn) (start : PollState) (bound : Option CycleBound)
      (now : Moment) (p : Publication) where
    abbrev Reads : PollState → Type 0
    Reads s = IsRead P loads (get_from s.store) cfg.dest_prefix bound now p

    abbrev Seen : Type 0
    Seen = IsStored loads cfg p start.store ⊎ IsLeft begun all start p

    -- what the loop still comes to from here is what it comes to from its start
    abbrev Goes : Bool → List Turn → PollState → Type 0
    Goes running ts s =
        (turn : Turn) (before : PollState)
        → IsTaken T rules P dumps cfg turn before running ts s
        → IsTaken T rules P dumps cfg turn before begun all start

    turn-Seen :
        (turn : Turn) (s : PollState)
        → IsTaken T rules P dumps cfg turn s begun all start
        → IsOrdinary turn
        → IsNew loads cfg (turn_id turn) s.store
        → (Reads s → Seen)
        → Reads (run_turn T rules P dumps cfg turn s)
        → Seen
    unfolding run_turn
    turn-Seen turn s taken ordinary new seen r =
        elim (run_cycle-cases T rules P dumps cfg turn.calls s.store) [
          | inl (e, n) ↦
              seen (subst (λ x. IsRead P loads (get_from x) cfg.dest_prefix bound now p) e r)
          | inr (g, c, stage) ↦
              let parts = computed-Parts T rules P dumps cfg turn.calls g c in
              elim (Stage-IsRead loads cfg P bound now p g s.store _ _ (turn_id turn) new
                (workflows-id P _ ordinary.stamped parts.rows g.workflows_payload
                  parts.workflows_made)
                stage r) [
                  | inl x ↦ seen x
                  | inr (x, y) ↦ inr (record {
                    turn = turn;
                    before = s;
                    taken = taken;
                    generation = g;
                    computed = c;
                    held = y;
                    is_stored = x;
                  })
                ]
        ]

    loop-Seen :
        (s : PollState) (running : Bool) (ts : List Turn)
        → Goes running ts s
        → All IsOrdinary ts
        → All (λ t. IsNew loads cfg (turn_id t) s.store) ts
        → IsPairwise (λ t u. turn_id t ≢ turn_id u) ts
        → (Reads s → Seen)
        → Reads (run_poll_loop T rules P dumps cfg running ts s)
        → Seen
    unfolding run_poll_loop
    loop-Seen s running [] goes ordinary new differ seen = seen
    loop-Seen s false (t ∷ ts) goes ordinary new differ seen = seen
    loop-Seen s true (t ∷ ts) goes ordinary new differ seen =
        loop-Seen (run_turn T rules P dumps cfg t s)
          (goes_on (cycle_end T rules P dumps cfg t s) t.wait) ts
          (λ turn before x. goes turn before (inr x)) ordinary.1
          (All-IsNew t s ts ordinary.0 differ.0 new.1) differ.1
          (turn-Seen t s (goes t s (inl (refl, refl))) ordinary.0 new.0 seen)

  -- Let the ids of the turns be new to the marker that the loop begins with, and different from one
  -- another; let Parquet give back an id that it was stamped with, and `json.loads` that of a
  -- sidecar. After any turns, with every failure and kill, a reader that accepts a publication has
  -- the three objects that were stored when the loop began, or the three of one generation, which
  -- one of these turns, that the loop came to, computed and left in the bucket together.
  pub run_poll_loop-atomic :
      (start : PollState) (running : Bool) (ts : List Turn) (last_complete : Option Publication)
      (bound : Option CycleBound) (now : Option Moment) (clock : ℕ) (p : Publication)
      → All IsOrdinary ts
      → All (λ t. IsNew loads cfg (turn_id t) start.store) ts
      → IsPairwise (λ t u. turn_id t ≢ turn_id u) ts
      → read_generation_result P loads
          (get_from (run_poll_loop T rules P dumps cfg running ts start).store)
          cfg.dest_prefix
          last_complete
          bound
          now
          clock
        ≡ ok (fresh_result p)
      → IsStored loads cfg p start.store ⊎ IsLeft running ts start p
  run_poll_loop-atomic start running ts last_complete bound now clock p ordinary new differ h =
      loop-Seen running ts start bound (checked_at now clock) p start running ts
        (λ turn before x. x) ordinary new differ
        (λ r. inl (IsRead-IsStored loads cfg P bound (checked_at now clock) p start.store r))
        (fresh-IsRead loads cfg P _ last_complete bound now clock p h)
