-- ===== src/Reply.antt =====
-- src/net.c: the replies, gbClientEnqueueCode, gbClientEnqueueItem and gbClientEnqueueKeyValueSet,
-- up to the frame that gbClientEnqueueData sends. Words are little-endian, as on the wire.
use gibson_mastter.Base.{
  ℕ, zero, suc, ◌+◌, ◌*◌, ◌-◌, ◌/◌, ◌%◌, ◌^◌, Option, none, some, List, [], ◌∷◌, ◌++◌, Bool, false,
  ltb, if◌then◌else◌, length,
}
use gibson_mastter.Base.Int.{ℤ, to_word}
use gibson_mastter.Item.{Item, Encoding, plain, lzf, number, bytes_of, number_of}
use gibson_mastter.Server.{External, Limits}

-- REPL_ERR to REPL_KVAL of src/query.h
pub data Code : Type 0 where
  err err_not_found err_nan err_mem err_locked ok val kval : Code

abbrev pub code_number : Code → ℕ
code_number err = 0
code_number err_not_found = 1
code_number err_nan = 2
code_number err_mem = 3
code_number err_locked = 4
code_number ok = 5
code_number val = 6
code_number kval = 7

-- What a query handler comes to: a reply for the client (its code, the encoding and the bytes of
-- the data, and whether the client is to be shut down), or an error (GB_ERR, GBNET_ERR).
pub data Reply : Type 0 where
  reply : Code → Encoding → List ℕ → Bool → Reply
  failed : Reply

-- The bytes of a word, the lowest first.
unfoldable pub le_bytes : ℕ → ℕ → List ℕ
le_bytes zero x = []
le_bytes (suc n) x = x % 256 ∷ le_bytes n (x / 256)

-- The word that bytes hold, the lowest first.
abbrev pub le_word : List ℕ → ℕ
le_word [] = 0
le_word (b ∷ bs) = b + 256 * le_word bs

abbrev pub long_bytes : ℤ → List ℕ
long_bytes n = le_bytes 8 (to_word (2 ^ 64) n)

abbrev pub encoding_number : Encoding → ℕ
encoding_number plain = 0
encoding_number lzf = 1
encoding_number number = 2

-- gbClientEnqueueCode: the data is one zero byte.
abbrev pub enqueue_code : Code → Reply
enqueue_code c = reply c plain (0 ∷ []) false

-- gbClientEnqueueData with the number that a multi query found.
abbrev pub enqueue_number : ℤ → Reply
enqueue_number n = reply val number (long_bytes n) false

-- The plain bytes, or the number, that are sent for an item, under the encoding that is sent.
unfoldable pub shown : External → ℕ → Item → List ℕ
shown ext max item = elim item.encoding [
  | plain ↦ bytes_of item.content
  | lzf ↦ ext.lzf_decompress (bytes_of item.content) max
  | number ↦ long_bytes (number_of item.content)
]

abbrev pub shown_encoding : Encoding → Encoding
shown_encoding plain = plain
shown_encoding lzf = plain
shown_encoding number = number

-- gbClientEnqueueItem
unfoldable pub enqueue_item : External → ℕ → Code → Item → Reply
unfolding shown
enqueue_item ext max c item = reply c (shown_encoding item.encoding) (shown ext max item) false

-- CHECK_SPACE and SAFE_MEMCPY over the response buffer: the space left, and what is written.
abbrev pub safe_memcpy : List ℕ → Option (ℕ × List ℕ) → Option (ℕ × List ℕ)
safe_memcpy bs none = none
safe_memcpy bs (some (space, out)) =
    if ltb space (length bs) then none else some (space - length bs, out ++ bs)

-- One round of the loop of gbClientEnqueueKeyValueSet.
abbrev pub write_pair : External → ℕ → List ℕ → Item → Option (ℕ × List ℕ) → Option (ℕ × List ℕ)
write_pair ext max key item b =
    let v = shown ext max item in
    safe_memcpy v (
      safe_memcpy (le_bytes 4 (length v)) (
        safe_memcpy (encoding_number (shown_encoding item.encoding) ∷ [])
          (safe_memcpy key (safe_memcpy (le_bytes 4 (length key)) b))))

-- ll_foreach_2: the loop ends at the first key or value that is NULL.
unfoldable pub write_pairs :
    External → ℕ → List (List ℕ) → List (Option Item) → Option (ℕ × List ℕ) → Option (ℕ × List ℕ)
write_pairs ext max [] vs b = b
write_pairs ext max (k ∷ ks) [] b = b
write_pairs ext max (k ∷ ks) (none ∷ vs) b = b
write_pairs ext max (k ∷ ks) (some item ∷ vs) b =
    write_pairs ext max ks vs (write_pair ext max k item b)

abbrev pub kvset_reply : Option (ℕ × List ℕ) → Reply
kvset_reply none = failed
kvset_reply (some (space, out)) = reply kval plain out false

-- gbClientEnqueueKeyValueSet
unfoldable pub enqueue_key_value_set :
    External → Limits → ℕ → List (List ℕ) → List (Option Item) → Reply
enqueue_key_value_set ext l elements keys values = kvset_reply (
    write_pairs ext l.maxrequestsize keys values
      (safe_memcpy (le_bytes 4 elements) (some (l.maxresponsesize % 2 ^ 32, []))))
