-- ===== src/AsyncLog.antt =====
-- buffer/async_buffer.cpp: the class `Log`. log.h is not part of the repository, so the queue of
-- lines is an interface, `BlockDeque`, and MAX_LINES an argument. What `snprintf` makes of the time
-- and `vsnprintf` of the message are arguments of a write. `output` is what has gone to the files,
-- `submitted` records the lines in the order of their writes. A null file pointer is `none`; a use
-- of one, and a failed `assert`, is a `fault`.
pub mod Delivery
pub mod Lines
pub mod Ready
pub mod Destroy
pub mod Month
pub mod Threads
mod Tests
use learning_c.Common.{
  ℕ, zero, suc, ◌+◌, ◌%◌, ◌/◌, ◌≡◌, Bool, true, false, not, ◌&&◌, Option, none, some, List, [], ◌∷◌,
  ◌++◌, ◌==◌, ltb, if◌then◌else◌, length, Run, ok, fault, out_of_fuel, ◌>>=◌, access,
}

-- The queue: what it does, and what is relied on. `pop` on an empty queue returns nothing.
pub record BlockDeque (Q : Type 0) : Type 0 where
  pub new : Q
  pub push_back : Q → List ℕ → Q
  pub pop : Q → Option (List ℕ × Q)
  pub full : Q → Bool
  pub contents : Q → List (List ℕ)
  pub contents-new : contents new ≡ []
  pub contents-push_back :
      (q : Q) (line : List ℕ) → contents (push_back q line) ≡ contents q ++ line ∷ []
  pub pop-eq-some :
      (q r : Q) (line : List ℕ) → pop q ≡ some (line, r) → contents q ≡ line ∷ contents r
  pub pop-eq-none : (q : Q) → pop q ≡ none → contents q ≡ []

-- `%04d_%02d_%02d`, and the number after it if there is one
pub record FileName : Type 0 where
  pub year : ℕ
  pub month : ℕ
  pub day : ℕ
  pub part : Option ℕ

-- the local time, and the text that a line begins with
pub record Now : Type 0 where
  pub year : ℕ
  pub month : ℕ
  pub day : ℕ
  pub stamp : List ℕ

pub record Log (Q : Type 0) : Type 0 where
  pub line_count : ℕ
  pub is_open : Bool
  pub is_async : Bool
  pub level : ℕ
  pub today : ℕ
  pub deque : Option Q
  pub file : Option FileName
  pub output : List (FileName × List ℕ)
  pub submitted : List (List ℕ)

pub data Op : Type 0 where
  initialise : (level max_queue_size : ℕ) → Now → (first second : Bool) → Op
  write_line : (level : ℕ) → Now → (message : List ℕ) → (opens : Bool) → Op
  change_level : (level : ℕ) → Op
  write_queued : Op

abbrev pub name_of : Now → Option ℕ → FileName
name_of now part = record { year = now.year; month = now.month; day = now.day; part = part }

-- `AppendLogLevelTitle_`: the letters of [debug]: [info] : [warn] : [error]: and a blank
abbrev pub title : ℕ → List ℕ
title zero = 91 ∷ 100 ∷ 101 ∷ 98 ∷ 117 ∷ 103 ∷ 93 ∷ 58 ∷ 32 ∷ []
title (suc zero) = 91 ∷ 105 ∷ 110 ∷ 102 ∷ 111 ∷ 93 ∷ 32 ∷ 58 ∷ 32 ∷ []
title (suc (suc zero)) = 91 ∷ 119 ∷ 97 ∷ 114 ∷ 110 ∷ 93 ∷ 32 ∷ 58 ∷ 32 ∷ []
title (suc (suc (suc zero))) = 91 ∷ 101 ∷ 114 ∷ 114 ∷ 111 ∷ 114 ∷ 93 ∷ 58 ∷ 32 ∷ []
title (suc (suc (suc (suc n)))) = 91 ∷ 105 ∷ 110 ∷ 102 ∷ 111 ∷ 93 ∷ 32 ∷ 58 ∷ 32 ∷ []

-- what the buffer holds at the end of a write
abbrev pub line_of : ℕ → Now → List ℕ → List ℕ
line_of level now message = now.stamp ++ title level ++ message ++ 10 ∷ 0 ∷ []

module _ {Q : Type 0} where
  -- the constructor
  abbrev pub create : Log Q
  create = record {
    line_count = 0;
    is_open = false;
    is_async = false;
    level = 0;
    today = 0;
    deque = none;
    file = none;
    output = [];
    submitted = [];
  }

  abbrev pub get_level : Log Q → ℕ
  get_level l = l.level

  abbrev pub set_level : Log Q → ℕ → Log Q
  set_level l level = record l { level = level }

  -- `flush`: what it does to the queue and the stream is not seen; it needs the queue if `is_async`.
  abbrev pub flush : Log Q → Run (Log Q)
  flush l = elim l.is_async [ true ↦ (do q ← access l.deque; ok l) | false ↦ ok l ]

  -- `fopen`, and again after `mkdir` where it failed
  abbrev pub open_file : Log Q → FileName → Bool → Run (Log Q)
  open_file l name opens = if opens then ok (record l { file = some name }) else fault

  -- `fputs` into the open file
  abbrev pub put_line : Log Q → List ℕ → Run (Log Q)
  put_line l line = do
    name ← access l.file
    ok (record l { output = l.output ++ (name, line) ∷ [] })

  -- flush, close the file and open another
  abbrev pub reopen : Log Q → FileName → Bool → Run (Log Q)
  reopen l name opens = do
    flushed ← flush l
    old ← access flushed.file
    open_file flushed name opens

module _ {Q : Type 0} (D : BlockDeque Q) (max_lines : ℕ) where
  -- the part of `init` on the queue
  abbrev pub start_queue : Log Q → ℕ → Log Q
  start_queue l max_queue_size =
      if ltb 0 max_queue_size
      then elim l.deque [
        | none ↦ record l { is_async = true; deque = some D.new }
        | some q ↦ record l { is_async = true }
      ]
      else record l { is_async = false }

  abbrev pub close_file : Log Q → Run (Log Q)
  close_file l = elim l.file [
    | none ↦ ok l
    | some name ↦ do flushed ← flush l; ok (record flushed { file = none })
  ]

  -- `first` and `second` say whether each `fopen` succeeds.
  unfoldable pub init : Log Q → ℕ → ℕ → Now → Bool → Bool → Run (Log Q)
  init l level max_queue_size now first second = do
    let queued = start_queue (record l { is_open = true; level = level }) max_queue_size
    closed ← close_file (record queued { line_count = 0; today = now.day })
    open_file closed (name_of now none) (if first then true else second)

  -- the first part of `write`: another day, or enough lines, takes another file
  unfoldable pub rotate : Log Q → Now → Bool → Run (Log Q)
  rotate l now opens =
      if l.today == now.day
      then (if not (l.line_count == 0) && l.line_count % max_lines == 0
          then reopen l (name_of now (some (l.line_count / max_lines))) opens
          else ok l)
      else reopen (record l { today = now.day; line_count = 0 }) (name_of now none) opens

  -- to the queue, where there is one with room, or else to the file
  abbrev pub deliver : Log Q → List ℕ → Bool → Option Q → Run (Log Q)
  deliver l line false d = put_line l line
  deliver l line true none = put_line l line
  deliver l line true (some q) =
      if D.full q then put_line l line else ok (record l { deque = some (D.push_back q line) })

  -- the second part of `write`
  unfoldable pub append_line : Log Q → ℕ → Now → List ℕ → Run (Log Q)
  append_line l level now message =
      let line = line_of level now message in
      deliver (record l { line_count = suc l.line_count; submitted = l.submitted ++ line ∷ [] })
        line l.is_async l.deque

  unfoldable pub write : Log Q → ℕ → Now → List ℕ → Bool → Run (Log Q)
  write l level now message opens = do
    rotated ← rotate l now opens
    append_line rotated level now message

  -- a round of the loop in `AsyncWrite_`, which has popped this
  abbrev pub write_popped : Log Q → Option (List ℕ × Q) → Run (Log Q)
  write_popped l none = ok l
  write_popped l (some (line, rest)) = put_line (record l { deque = some rest }) line

  abbrev pub async_write : Log Q → Run (Log Q)
  async_write l = elim l.deque [ none ↦ ok l | some q ↦ write_popped l (D.pop q) ]

  abbrev pub in_queue : Option Q → List (List ℕ)
  in_queue none = []
  in_queue (some q) = D.contents q

  -- the writing thread, until the queue is empty
  unfoldable pub drain : ℕ → Log Q → Run (Log Q)
  drain zero l = elim (in_queue l.deque) [ [] ↦ ok l | line ∷ rest ↦ out_of_fuel ]
  drain (suc n) l = async_write l >>= drain n

  -- the destructor: the loop and `join` wait until the writing thread has emptied the queue
  unfoldable pub destroy : Log Q → Run (Log Q)
  destroy l = drain (length (in_queue l.deque)) l >>= close_file

  -- what happens to a log: a call of `init` or `write`, a new level, a round of the writing thread
  unfoldable pub perform : Log Q → Op → Run (Log Q)
  perform l (initialise level size now first second) = init l level size now first second
  perform l (write_line level now message opens) = write l level now message opens
  perform l (change_level level) = ok (set_level l level)
  perform l write_queued = async_write l

  unfoldable pub run : Log Q → List Op → Run (Log Q)
  run l [] = ok l
  run l (op ∷ ops) = perform l op >>= λ t. run t ops
