-- ===== src/Store/Output/Relayed.antt =====
-- What `AppendOutput` stores and returns over a sequence of writes, whatever commands and streams
-- they interleave.
use windmill_gate.Base.{
  ℕ, Bool, true, false, ◌||◌, List, [], ◌∷◌, ◌++◌, ◌-◌, suc, if◌then◌else◌, Bytes, equal, equal_iff,
  equal_refl, is, take, leb, ◌≡◌, refl, sym, ap, subst, arith, ◌∙◌, append_assoc, append-nil, All,
  Bool-cases, inl, inr,
}
use windmill_gate.Base.Int.{pos}
use windmill_gate.Base.Results.{Result, ok, ◌>>=◌}
use windmill_gate.Store.{StoreError, Tables, has_key, command_key}
use windmill_gate.Store.Output.{
  rows_of, used_bytes, any_truncated, output_row, append_within, append_output,
}
use windmill_gate.Store.Output.Kept.{
  IsKept, full_before, below-IsKept, past-IsKept, no_output, room_before, rows_of-append, stored,
  stored-append,
}

pub record Write : Type 0 where
  pub id : Bytes
  pub stream : Bytes
  pub data_bytes : Bytes
  pub now : ℕ

unfoldable pub stored_of : Bytes → Tables → Bytes
unfolding rows_of stored
stored_of id tables = stored (rows_of id tables.output)

-- what is written of a command, in the order of the writes
unfoldable pub written_of : Bytes → List Write → Bytes
written_of id [] = []
written_of id (w ∷ ws) =
    let rest = written_of id ws in if equal w.id id then w.data_bytes ++ rest else rest

-- the writes of a sequence, each with what the store returns
unfoldable pub append_all :
    ℕ → List Write → Tables → Result StoreError (List (Write × (Bytes × Bool)) × Tables)
unfolding append_output
append_all limit [] tables = ok ([], tables)
append_all limit (w ∷ ws) tables = do
  (reply, tables') ← append_output w.now w.id w.stream w.data_bytes (pos limit) tables
  (replies, last) ← append_all limit ws tables'
  ok ((w, reply) ∷ replies, last)

-- what the store returns for the writes of a command, which is what may be relayed
unfoldable pub relayed_of : Bytes → List (Write × (Bytes × Bool)) → Bytes
relayed_of id [] = []
relayed_of id ((w, (sent, truncated)) ∷ rest) =
    let others = relayed_of id rest in if equal w.id id then sent ++ others else others

-- a write of a stream to a command that the store has
pub record IsWritable (tables : Tables) (w : Write) : Type 0 where
  pub of_stream : (is w.stream "stdout" || is w.stream "stderr") ≡ true
  pub of_command : has_key command_key w.id tables.commands ≡ true

-- What one write does: it is returned and stored alike, it leaves the other commands' rows, and it
-- reports a truncation when the limit is passed.
pub record IsAppended (limit : ℕ) (w : Write) (tables : Tables) (reply : Bytes × Bool)
    (tables' : Tables) : Type 0 where
  pub commands : tables'.commands ≡ tables.commands
  pub grows : stored_of w.id tables' ≡ stored_of w.id tables ++ reply.0
  pub others :
      (j : Bytes) → equal w.id j ≡ false → rows_of j tables'.output ≡ rows_of j tables.output
  pub still :
      (before : Bytes)
      → IsKept limit before (rows_of w.id tables.output)
      → IsKept limit (before ++ w.data_bytes) (rows_of w.id tables'.output)

append-refused :
    (limit : ℕ) (w : Write) (tables : Tables)
    → (any_truncated (rows_of w.id tables.output)
        || leb limit (used_bytes (rows_of w.id tables.output)))
      ≡ true
    → IsAppended limit w tables ([], true) tables
unfolding stored_of
append-refused limit w tables full = record {
  commands = refl;
  grows = sym (append-nil (stored (rows_of w.id tables.output)));
  others = λ j n. refl;
  still = λ before k. past-IsKept limit before w.data_bytes _ k (full_before limit before _ k full);
}

append-taken :
    (limit : ℕ) (w : Write) (tables : Tables)
    → (any_truncated (rows_of w.id tables.output)
        || leb limit (used_bytes (rows_of w.id tables.output)))
      ≡ false
    → let rows = rows_of w.id tables.output in
      let row = output_row w.now w.id w.stream w.data_bytes (limit - used_bytes rows) rows in
      IsAppended limit w tables
        (row.data_bytes, row.truncated)
        (record tables { output = tables.output ++ row ∷ [] })
unfolding stored_of output_row
append-taken limit w tables room =
    let rows = rows_of w.id tables.output in
    let row = output_row w.now w.id w.stream w.data_bytes (limit - used_bytes rows) rows in
    let mine : rows_of w.id (tables.output ++ row ∷ []) ≡ rows ++ row ∷ [] =
      ground (arith, rows_of-append w.id tables.output row, equal_refl w.id) in
    record {
      commands = refl;
      grows = ap stored mine ∙ stored-append rows row;
      others = λ j n.
          ground (arith, rows_of-append j tables.output row, append-nil (rows_of j tables.output));
      still = λ before k. subst (IsKept limit (before ++ w.data_bytes)) (sym mine) (
          below-IsKept limit w.now w.id w.stream before w.data_bytes rows k
            (room_before limit before rows k room));
    }

pub append_output-IsAppended :
    (n : ℕ) (w : Write) (tables : Tables)
    → IsWritable tables w
    → (reply : Bytes × Bool) × (tables' : Tables) × (append_output w.now w.id w.stream w.data_bytes
          (pos (suc n))
          tables
        ≡ ok (reply, tables'))
      × IsAppended (suc n) w tables reply tables'
unfolding append_output append_within
append_output-IsAppended n w tables v =
    elim (Bool-cases (
      any_truncated (rows_of w.id tables.output)
      || leb (suc n) (used_bytes (rows_of w.id tables.output)))) [
        | inl full ↦ (_, _, ground (arith, v.of_stream), append-refused (suc n) w tables full)
        | inr room ↦
            (_, _, ground (arith, v.of_stream, v.of_command), append-taken (suc n) w tables room)
      ]

-- a write to the tables that an earlier write left
IsWritable-later :
    (ws : List Write) (tables tables' : Tables)
    → tables'.commands ≡ tables.commands
    → All (IsWritable tables) ws
    → All (IsWritable tables') ws
IsWritable-later [] tables tables' same h = tt
IsWritable-later (w ∷ ws) tables tables' same (v, h) = (
  record {
    of_stream = v.of_stream;
    of_command = ap (has_key command_key w.id) same ∙ v.of_command;
  },
  IsWritable-later ws tables tables' same h,
)

-- What a run of writes leaves of one command.
pub record IsRelayed (limit : ℕ) (id before : Bytes) (ws : List Write) (tables : Tables)
    (replies : List (Write × (Bytes × Bool))) (tables' : Tables) : Type 0 where
  pub keeps : IsKept limit (before ++ written_of id ws) (rows_of id tables'.output)
  pub relays : stored_of id tables' ≡ stored_of id tables ++ relayed_of id replies

step-IsRelayed :
    (limit : ℕ) (id before : Bytes) (w : Write) (ws : List Write) (tables middle last : Tables)
    (reply : Bytes × Bool) (replies : List (Write × (Bytes × Bool)))
    → IsKept limit before (rows_of id tables.output)
    → IsAppended limit w tables reply middle
    → ((now_before : Bytes)
        → IsKept limit now_before (rows_of id middle.output)
        → IsRelayed limit id now_before ws middle replies last)
    → IsRelayed limit id before (w ∷ ws) tables ((w, reply) ∷ replies) last
unfolding written_of relayed_of stored_of
step-IsRelayed limit id before w ws tables middle last reply replies k a later =
    elim (Bool-cases (equal w.id id)) [
      | inl mine ↦
          let same : w.id ≡ id = (equal_iff w.id id).0 mine in
          let r = later (before ++ w.data_bytes) (
            subst (λ j. IsKept limit (before ++ w.data_bytes) (rows_of j middle.output)) same
              (a.still before
                (subst (λ j. IsKept limit before (rows_of j tables.output)) (sym same) k))) in
          let grows : stored_of id middle ≡ stored_of id tables ++ reply.0 =
            subst (λ j. stored_of j middle ≡ stored_of j tables ++ reply.0) same a.grows in
          record {
            keeps =
                subst (λ b. IsKept limit b (rows_of id last.output))
                  (ground (arith, append_assoc before w.data_bytes (written_of id ws))) r.keeps;
            relays =
                r.relays
                ∙ ap (λ b. b ++ relayed_of id replies) grows
                ∙ ground
                    (arith, append_assoc (stored_of id tables) reply.0 (relayed_of id replies));
          }
      | inr other ↦
          let same = a.others id other in
          let r = later before (subst (IsKept limit before) (sym same) k) in
          record {
            keeps =
                subst (λ b. IsKept limit (before ++ b) (rows_of id last.output)) (ground arith)
                  r.keeps;
            relays =
                r.relays ∙ ap (λ rows. stored rows ++ relayed_of id replies) same ∙ ground arith;
          }
    ]

append_all-IsRelayed :
    (n : ℕ) (ws : List Write) (tables : Tables)
    → All (IsWritable tables) ws
    → (replies : List (Write × (Bytes × Bool))) × (tables' : Tables) × (append_all (suc n) ws tables
        ≡ ok (replies, tables'))
      × ((id before : Bytes)
          → IsKept (suc n) before (rows_of id tables.output)
          → IsRelayed (suc n) id before ws tables replies tables')
unfolding append_all written_of relayed_of
append_all-IsRelayed n [] tables v = (
  [],
  tables,
  refl,
  λ id before k. record {
    keeps = subst (λ b. IsKept (suc n) b (rows_of id tables.output)) (sym (append-nil before)) k;
    relays = sym (append-nil (stored_of id tables));
  },
)
append_all-IsRelayed n (w ∷ ws) tables (v, vs) =
    let (reply, middle, one, a) = append_output-IsAppended n w tables v in
    let (replies, last, more, later) =
      append_all-IsRelayed n ws middle (IsWritable-later ws tables middle a.commands vs) in
    (
      (w, reply) ∷ replies,
      last,
      ap (λ r. r >>= λ p. append_all (suc n) ws p.1 >>= λ q. ok ((w, p.0) ∷ q.0, q.1)) one
          ∙ ap (λ r. r >>= λ q. ok ((w, reply) ∷ q.0, q.1)) more,
      λ id before k.
          step-IsRelayed (suc n) id before w ws tables middle last reply replies k a (later id),
    )

-- Writes of standard output and standard error to commands that the store has, in any order and
-- under one positive limit, all succeed. Of a command that had no output before, the store then
-- holds exactly the first `limit` bytes of what was written of it, in the order of the writes and
-- across both streams, and what it returned to be relayed is exactly what it holds.
pub append_all-take :
    (n : ℕ) (ws : List Write) (tables : Tables)
    → All (IsWritable tables) ws
    → (replies : List (Write × (Bytes × Bool))) × (tables' : Tables) × (append_all (suc n) ws tables
        ≡ ok (replies, tables'))
      × ((id : Bytes)
          → rows_of id tables.output ≡ []
          → (stored_of id tables' ≡ take (suc n) (written_of id ws))
            × (relayed_of id replies ≡ stored_of id tables'))
unfolding stored_of stored
append_all-take n ws tables v =
    let (replies, last, run, relayed) = append_all-IsRelayed n ws tables v in
    (
      replies,
      last,
      run,
      λ id empty.
          let r = relayed id [] (no_output (suc n) (rows_of id tables.output) empty) in
          (r.keeps.kept, sym (r.relays ∙ ap (λ rows. stored rows ++ relayed_of id replies) empty)),
    )
