-- ===== src/Heap.antt =====
-- The C heap, as far as src/protocol/lpushFmt.cpp and src/protocol/lpushProtocolStack.cpp depend
-- on it: they write past the end of what they allocate, so what happens rests on the allocator.
use linkedon_push.Common.{ℕ, ◌≤◌, Bytes, Option, none, some, length, leb, if◌then◌else◌}

-- malloc(3) and malloc_usable_size(3): a block of `n` bytes can hold `usable n` bytes, which is `n`
-- at least, and what a program finds in it where it never wrote is `residue n i`.
pub record Allocator : Type 0 where
  pub usable : ℕ → ℕ
  pub residue : ℕ → ℕ → ℕ
  pub usable_ge : (n : ℕ) → n ≤ usable n

-- A block of `requested` bytes after `bs` was written to its start, if `bs` fits into it.
abbrev pub fill_block : Allocator → ℕ → Bytes → Option Bytes
fill_block heap requested bs = if leb (length bs) (heap.usable requested) then some bs else none
