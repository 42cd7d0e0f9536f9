-- ===== src/Tests/Parts.antt =====
-- The theorems on the linked lists, the event loop, the configuration and the allocator at concrete
-- inputs.
use gibson_mastter.Base.{ℕ, ◌%◌, ◌^◌, ◌≡◌, refl, some, List, [], ◌∷◌, codes, true, false, arith}
use gibson_mastter.EventLoop.{
  Mask, no_mask, FileEvent, EventLoop, create_event_loop, create_file_event, delete_file_event,
}
use gibson_mastter.EventLoop.Files.{Tracks, created, watched, dropped, Reached-Tracks}
use gibson_mastter.Zmem.{Memory, zmalloc, zfree, head_ptr, read_prefix}
use gibson_mastter.Zmem.Count.{zmem_used-total}
use gibson_mastter.Zmem.Count

abbrev blank : ℕ → FileEvent
blank i = record { mask = no_mask; rfile_proc = 0; wfile_proc = 0; client_data = 0 }

abbrev to_read : Mask
to_read = record { readable = true; writable = false }

abbrev two_watched : EventLoop
two_watched =
    (create_file_event (create_file_event (create_event_loop 16 blank) true 3 to_read 1 0).1 true 7
      to_read 1 0).1

Reached-Tracks_example : Tracks (delete_file_event two_watched 7 to_read)
Reached-Tracks_example =
    Reached-Tracks {memory = blank} {el = delete_file_event two_watched 7 to_read} (
      dropped two_watched 7 to_read
        (watched _ true 7 to_read 1 0 (watched _ true 3 to_read 1 0 (created 16) refl) refl))

abbrev lines : List (List ℕ)
lines = codes "# a comment" ∷ codes "port 10128 " ∷ codes "port 10129 " ∷ []

-- Two blocks of which one is freed.
abbrev two_blocks : Memory
two_blocks =
    (zmalloc (zmalloc (record { used_memory = 0; blocks = [] }) 10 (some 1000)).1 100 (some 2000)).1

ten_live : read_prefix two_blocks.blocks (head_ptr 1008) ≡ some 10
unfolding zmalloc read_prefix
ten_live = refl

zmem_used-total_example :
    (zfree two_blocks (some 1008)).used_memory
    ≡ Count.total (zfree two_blocks (some 1008)).blocks % 2 ^ 64
zmem_used-total_example = zmem_used-total {m = zfree two_blocks (some 1008)} (
    Count.Reached.freed two_blocks 1008 10
      (Count.Reached.allocated _ 100 (some 2000)
        (Count.Reached.allocated _ 10 (some 1000) Count.Reached.start (omega arith)) (omega arith))
      ten_live)
