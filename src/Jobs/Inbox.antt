-- ===== src/Jobs/Inbox.antt =====
-- What the recording of deliveries promises, as an inbox without tables: which deliveries are known,
-- which task each semantic key stands for, and the checkpoint.
use signal_plane.Base.{
  ℕ, String, Bool, true, false, ◌≡◌, refl, ap, ◌∙◌, List, [], ◌∷◌, arith, Option, some, none, inl,
  inr, Bool-cases, Option-cases, exists, find, find-mem, find_of_mem, exists_of_mem, exists-mem,
  if◌then◌else◌, ◌&&◌, ◌||◌, ◌<>◌, ◌==◌, ==→eq,
}
use mathlib.Core.Path.{fun_ext}
use signal_plane.Dispatch.{TaskCandidate, semantic_key}
use signal_plane.Jobs.{JobRow}
use signal_plane.Jobs.Tables.{DeliveryRow, Db, max}
use signal_plane.Jobs.Intake.{
  add_job, has_key, has_delivery_id, take_delivery, new_delivery, delivery_row,
}

pub record Inbox : Type 0 where
  pub known : String → Bool
  pub task : String → Option TaskCandidate
  pub mark : ℕ

-- A message of the stream that is to be recorded.
pub record Message : Type 0 where
  pub id : String
  pub outcome : String
  pub sequence : ℕ
  pub candidate : Option TaskCandidate
  pub now : ℕ

-- The first task of a key is the one.
abbrev pub keep_first :
    Option TaskCandidate → (String → Option TaskCandidate) → String → Option TaskCandidate
keep_first none task key = task key
keep_first (some c) task key = elim (task key) [
  | some t ↦ some t
  | none ↦ if semantic_key c == key then some c else none
]

-- A message that is known only moves the mark.
abbrev pub receive : Message → Inbox → Inbox
receive m box =
    if m.id <> "" && box.known m.id then record box { mark = max box.mark m.sequence } else record {
      known = λ id. (m.id <> "" && m.id == id) || box.known id;
      task = keep_first m.candidate box.task;
      mark = max box.mark m.sequence;
    }

unfoldable pub receive_all : List Message → Inbox → Inbox
receive_all [] box = box
receive_all (m ∷ ms) box = receive_all ms (receive m box)

-- What a row of jobs keeps of its candidate.
abbrev pub task_of : JobRow → TaskCandidate
task_of row = record {
  repository = row.repository;
  issue_number = row.issue_number;
  delivery_id = row.delivery_id;
  route_id = row.route_id;
  profile = row.profile;
}

abbrev pub found_task : Option JobRow → Option TaskCandidate
found_task none = none
found_task (some row) = some (task_of row)

-- The inbox that the tables stand for.
abbrev pub inbox : Db → Inbox
inbox db = record {
  known = λ id. exists (has_delivery_id id) db.deliveries;
  task = λ key. found_task (find (has_key key) db.jobs);
  mark = db.checkpoint;
}

abbrev pub take_message : Message → Db → Db
take_message m db = take_delivery m.id m.outcome m.sequence m.candidate m.now db

unfoldable pub take_messages : List Message → Db → Db
take_messages [] db = db
take_messages (m ∷ ms) db = take_messages ms (take_message m db)

-- A key that is found exists, and the other way round.
found_exists :
    (key : String) (jobs : List JobRow) (j : JobRow)
    → find (has_key key) jobs ≡ some j
    → exists (has_key key) jobs ≡ true
found_exists key jobs j e =
    let (m, t) = find-mem (has_key key) jobs j e in exists_of_mem (has_key key) jobs j m t

missing_exists :
    (key : String) (jobs : List JobRow)
    → find (has_key key) jobs ≡ none
    → exists (has_key key) jobs ≡ false
missing_exists key jobs e = elim (Bool-cases (exists (has_key key) jobs)) [
  | inr u ↦ u
  | inl t ↦
      let (j, m, h) = exists-mem (has_key key) jobs t in
      let (y, f) = find_of_mem (has_key key) jobs j m h in absurd (ground (arith, e, f))
]

exists_at :
    (key other : String) (jobs : List JobRow)
    → (key == other) ≡ true
    → exists (has_key key) jobs ≡ exists (has_key other) jobs
exists_at key other jobs e = ap (λ k. exists (has_key k) jobs) (==→eq key other e)

task_add :
    (candidate : Option TaskCandidate) (now : ℕ) (jobs : List JobRow) (key : String)
    → found_task (find (has_key key) (add_job candidate now jobs))
      ≡ keep_first candidate (λ k. found_task (find (has_key k) jobs)) key
unfolding add_job find
task_add none now jobs key = refl
task_add (some c) now jobs key = elim (Option-cases (find (has_key key) jobs)) [
  | inl missing ↦
      let nowhere = missing_exists key jobs missing in
      elim (Bool-cases (semantic_key c == key)) [
        | inl same ↦
            let new : exists (has_key (semantic_key c)) jobs ≡ false =
              exists_at (semantic_key c) key jobs same ∙ nowhere in
            rw (add_job, new) (ground (arith, missing, same))
        | inr apart ↦ elim (Bool-cases (exists (has_key (semantic_key c)) jobs)) [
          | inl old ↦ rw (add_job, old) (ground (arith, missing, apart))
          | inr new ↦ rw (add_job, new) (ground (arith, missing, apart))
        ]
      ]
  | inr (j, found) ↦
      let there = found_exists key jobs j found in
      elim (Bool-cases (exists (has_key (semantic_key c)) jobs)) [
        | inl old ↦ rw (add_job, old) (ground (arith, found))
        | inr new ↦
            let apart : (semantic_key c == key) ≡ false =
              ground (arith, exists_at (semantic_key c) key jobs, there, new) in
            rw (add_job, new) (ground (arith, found, apart))
      ]
]

known_add :
    (m : Message) (rows : List DeliveryRow) (row : DeliveryRow)
    → row.delivery_id ≡ m.id
    → (id : String)
    → exists (has_delivery_id id) (new_delivery m.id row rows)
      ≡ ((m.id <> "" && m.id == id) || exists (has_delivery_id id) rows)
unfolding exists
known_add m rows row e id =
    let same : (row.delivery_id == id) ≡ (m.id == id) = ap (λ x. x == id) e in ground (arith, same)

take_message-receive : (m : Message) (db : Db) → inbox (take_message m db) ≡ receive m (inbox db)
unfolding take_delivery
take_message-receive m db =
    elim (Bool-cases (m.id <> "" && exists (has_delivery_id m.id) db.deliveries)) [
      | inl t ↦ rw (take_delivery, t) refl
      | inr u ↦
          rw (take_delivery, u)
            (λ i. record {
              known =
                  fun_ext
                    (known_add m db.deliveries
                      (delivery_row m.id m.outcome m.candidate m.sequence m.now) refl)
                    i;
              task = fun_ext (task_add m.candidate m.now db.jobs) i;
              mark = max db.checkpoint m.sequence;
            })
    ]

-- Recording any messages one after the other, whatever was recorded before, is what an inbox does that
-- knows each delivery once, keeps the first task of a semantic key, and marks the highest sequence.
pub take_messages-receive_all :
    (ms : List Message) (db : Db) → inbox (take_messages ms db) ≡ receive_all ms (inbox db)
unfolding take_messages receive_all
take_messages-receive_all [] db = refl
take_messages-receive_all (m ∷ ms) db =
    take_messages-receive_all ms (take_message m db)
    ∙ ap (receive_all ms) (take_message-receive m db)
