-- ===== src/Log/Ring.antt =====
-- The ring of 64 entries of kernel/log.c. Printing is left out: a dump is the entries it goes through.
-- A text is what stands before its final NUL; a level is its number.
use aeos.Log.{vsnprintf, Arg, string_arg}
use aeos.Base.{
  if◌then◌else◌, replicate, List, [], ℕ, take, leb, ◌∷◌, ltb, ◌-◌, set, some, ◌+◌, ◌%◌, add32, suc,
  get_or, zero,
}

abbrev pub max_entries : ℕ
max_entries = 64

abbrev pub level_info : ℕ
level_info = 2

abbrev pub level_error : ℕ
level_error = 4

abbrev pub level_none : ℕ
level_none = 6

-- `log_entry_t`
pub record Entry : Type 0 where
  pub timestamp : ℕ
  pub level : ℕ
  pub source : List ℕ
  pub message : List ℕ

-- `current_level`, `log_buffer`, `log_head`, `log_total_count` and `log_error_total`
pub record Log : Type 0 where
  pub current_level : ℕ
  pub buffer : List Entry
  pub head : ℕ
  pub total : ℕ
  pub error_total : ℕ

abbrev pub empty_entry : Entry
empty_entry = record { timestamp = 0; level = level_none; source = []; message = [] }

-- The arguments of a call of `log_write`, with the tick it is made at
pub record Message : Type 0 where
  pub now : ℕ
  pub level : ℕ
  pub source : List ℕ
  pub fmt : List ℕ
  pub args : List Arg

-- What is stored of it: 7 characters of the source, and 127 of the text
abbrev pub entry_of : Message → Entry
entry_of m = record {
  timestamp = m.now;
  level = m.level;
  source = take 7 m.source;
  message = vsnprintf 128 m.fmt m.args;
}

-- `log_write`
unfoldable pub write : Log → Message → Log
write log m = if ltb m.level log.current_level then log else record log {
  buffer = set log.buffer log.head (entry_of m);
  head = (log.head + 1) % max_entries;
  total = add32 log.total 1;
  error_total = if leb level_error m.level then add32 log.error_total 1 else log.error_total;
}

-- `log_set_level`
unfoldable pub set_level : Log → ℕ → Log
set_level log level = if leb level level_none then record log { current_level = level } else log

-- "LOG", "Logging initialized (level=%s)" and "INFO"
abbrev pub first_message : ℕ → Message
first_message now = record {
  now = now;
  level = level_info;
  source = 76 ∷ 79 ∷ 71 ∷ [];
  fmt =
      76 ∷ 111 ∷ 103 ∷ 103 ∷ 105 ∷ 110 ∷ 103 ∷ 32 ∷ 105 ∷ 110 ∷ 105 ∷ 116 ∷ 105 ∷ 97 ∷ 108 ∷ 105
      ∷ 122 ∷ 101 ∷ 100 ∷ 32 ∷ 40 ∷ 108 ∷ 101 ∷ 118 ∷ 101 ∷ 108 ∷ 61 ∷ 37 ∷ 115 ∷ 41 ∷ [];
  args = string_arg (some (73 ∷ 78 ∷ 70 ∷ 79 ∷ [])) ∷ [];
}

-- The variables before the first message
abbrev pub cleared : Log
cleared = record {
  current_level = level_info;
  buffer = replicate 64 empty_entry;
  head = 0;
  total = 0;
  error_total = 0;
}

-- `log_init`
unfoldable pub init : ℕ → Log
init now = write cleared (first_message now)

-- The entries from `start + i` on, with `n` to go
unfoldable pub dump_from : Log → ℕ → ℕ → ℕ → List Entry
dump_from log start i zero = []
dump_from log start i (suc n) =
    get_or log.buffer (add32 start i % max_entries) empty_entry ∷ dump_from log start (suc i) n

-- `log_dump`
unfoldable pub dump : Log → List Entry
dump log =
    dump_from log (if ltb log.total max_entries then 0 else log.total - max_entries) 0
      (if ltb log.total max_entries then log.total else max_entries)
