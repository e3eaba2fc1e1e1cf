-- ===== src/Ring.antt =====
-- kernel/lib/list.c: the cyclic lists with which the kernel keeps threads, processes, ids and files. A
-- member is its address, 0 is NULL, and the offsets of its two links choose the functions `next` and
-- `prev`.
pub mod Segment
pub mod Refines
pub mod Neighbours
pub mod Removal
mod Tests
use zakos.Common.{ℕ, ◌==◌, if◌then◌else◌, update}

-- The links of all members, and the head `*queue`.
pub record Links : Type 0 where
  pub next : ℕ → ℕ
  pub prev : ℕ → ℕ
  pub queue : ℕ

-- The part of __list_add for a list that is not empty.
abbrev pub add_behind : Links → ℕ → Links
add_behind s member =
    let last = s.prev s.queue in
    record s {
      next = update (update s.next member s.queue) last member;
      prev = update (update s.prev member last) s.queue member;
    }

-- __list_add
pub list_add : Links → ℕ → Links
list_add s member =
    if s.queue == 0
    then record {
      next = update s.next member member;
      prev = update s.prev member member;
      queue = member;
    }
    else add_behind s member

-- The part of __list_remove that ties the two neighbours together.
abbrev pub tie : Links → ℕ → Links
tie s member = record s {
  next = update s.next (s.prev member) (s.next member);
  prev = update s.prev (s.next member) (s.prev member);
}

-- The end of __list_remove.
abbrev pub clear : Links → ℕ → Links
clear s member = record s { next = update s.next member 0; prev = update s.prev member 0 }

-- __list_remove
pub list_remove : Links → ℕ → Links
list_remove s member =
    let head = if s.queue == member then s.next member else s.queue in
    if s.next member == member
    then clear (record s { queue = 0 }) member
    else clear (tie (record s { queue = head }) member) member
