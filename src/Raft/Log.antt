-- ===== src/Raft/Log.antt =====
-- kv-store/internal/raft/log.go: commands, log entries, and the operations of `RaftLog`.
pub mod Numbered
pub mod Appended
use distributed_fault_tolera.Prelude.{
  ℕ, ◌-◌, Bytes, List, [], ◌∷◌, ◌++◌, Option, none, some, ◌||◌, inc, ltb, ◌==◌, if◌then◌else◌,
  length, get_elem?, take, drop,
}

-- `CommandType` is a byte: a decoded request may hold any value.
abbrev pub command_set : ℕ
command_set = 0

abbrev pub command_delete : ℕ
command_delete = 1

pub record Command : Type 0 where
  pub kind : ℕ
  pub key : Bytes
  pub value : Bytes

pub record LogEntry : Type 0 where
  pub index : ℕ
  pub term : ℕ
  pub command : Command

pub record RaftLog : Type 0 where
  pub entries : List LogEntry

-- Go's zero value `LogEntry{}`.
abbrev pub zero_entry : LogEntry
zero_entry = record { index = 0; term = 0; command = record { kind = 0; key = []; value = [] } }

abbrev pub entry_or_zero : Option LogEntry → LogEntry
entry_or_zero none = zero_entry
entry_or_zero (some e) = e

-- The last entry is read only of a log that is not empty, so the default is never met.
unfoldable pub last_index : RaftLog → ℕ
last_index l =
    if length l.entries == 0
    then 0
    else (entry_or_zero (get_elem? l.entries (length l.entries - 1))).index

unfoldable pub append : ℕ → Command → RaftLog → RaftLog × LogEntry
append term command l =
    let entry : LogEntry = record { index = inc (last_index l); term = term; command = command } in
    (record { entries = l.entries ++ (entry ∷ []) }, entry)

-- `none` is the result `false`.
unfoldable pub get : ℕ → RaftLog → Option LogEntry
get index l =
    if index == 0 || ltb (length l.entries) index then none else get_elem? l.entries (index - 1)

unfoldable pub entries_from : ℕ → RaftLog → List LogEntry
entries_from index l =
    if index == 0 || ltb (length l.entries) index then [] else drop (index - 1) l.entries

unfoldable pub truncate_from : ℕ → RaftLog → RaftLog
truncate_from index l =
    if index == 0 || ltb (length l.entries) index
    then l
    else record { entries = take (index - 1) l.entries }
