-- ===== src/Examples/Streams.antt =====
-- src/locker/io.rs: a value streamed in two chunks.
use crossbank.Prelude.{
  ◌≤◌, ap, ◌∙◌, length-append, take-append_of_length, drop-append_of_length, ◌≡◌, refl, arith, [],
  ◌∷◌, ◌++◌, length, some, false,
}
use crossbank.Error.{ok}
use crossbank.Bytes.{Bytes, bytes_eq}
use mathlib.Core.List.{flatten}
use crossbank.Backend.Memory.{
  new, tree_of, MemoryBackend, get, get_many, with_tables, apply_all, commit,
}
use crossbank.Codec.Chain.{header, reverse_all, unseal}
use crossbank.Codec.Filters.{max_decoded_bytes}
use crossbank.Codec.Compression.{Compresses}
use crossbank.Locker.Inner.Read.{
  append_pieces, seq_range, load_payload, read_chunks, read_groups, group_keys, append_piece,
  check_total,
}
use crossbank.Locker.Io.{Writer, Published, finish, write_chunk, start, start_from, commit_counter}
use crossbank.Locker.Io.Stream.{
  Seals, default_chain-Seals, IsWriting, Continues, write_chunk-Continues,
}
use crossbank.Locker.Io.Finish.{Publishes, finish-Publishes}
use crossbank.Bytes.Number.{to_be, from_be, to_le, from_le, length-to_le, from_le-to_le}
use crossbank.Locker.Chunk.{
  encode, parse, is_pointer, chunk_key, within_limits, meta_next_value_id, allocate, take_id, issue,
  advance, allocate_from, counter_op, counter_op_for,
}
use crossbank.Locker.Inner.{Inner, encode_key, fetch}
use crossbank.Locker.Io.Reader.Whole.{Streams, reader-Streams}
use crossbank.Key.{encode_bytes}
use crossbank.Backend.Api.{meta, put}
use crossbank.Locker.Io.Streamed.{Ends, start-Ends}
use crossbank.Examples.Lockers.{inner}
use crossbank.Examples.Values.{sum32, pack, unpack, sum32_small, chain}
use crossbank.Tree

-- A locker under the default chain.
abbrev packed : Inner
packed = record inner { chain = chain }

packs_any : (x : Bytes) → length x ≤ max_decoded_bytes → Compresses pack unpack x
packs_any x fits =
    let four = length-to_le 4 (length x) in
    record {
      prefixed = omega (arith, length-append (to_le 4 (length x)) x, four);
      declared =
          ap from_le (take-append_of_length 4 (to_le 4 (length x)) x four)
          ∙ from_le-to_le 4 (length x) (omega (arith, fits));
      restored = ap some (drop-append_of_length 4 (to_le 4 (length x)) x four);
    }

packed-Seals : Seals packed.chain
packed-Seals = default_chain-Seals sum32 pack unpack sum32_small packs_any

abbrev writer : Bytes → Writer
writer buf = record { key = 9 ∷ []; value_id = 4; seq = 0; total_len = length buf; buf = buf }

writer-IsWriting : (buf : Bytes) → IsWriting packed packed-Seals new (writer buf) buf
unfolding append_pieces seq_range
writer-IsWriting buf = record {
  opened = refl;
  flushed = [];
  appends = λ p fits. refl;
  joined = refl;
  counted = omega arith;
  total = refl;
}

write_chunk-Continues_example :
    Continues packed packed-Seals
      (write_chunk packed new (writer (1 ∷ [])) (2 ∷ 3 ∷ 4 ∷ 5 ∷ []))
      (writer (1 ∷ []))
      (1 ∷ 2 ∷ 3 ∷ 4 ∷ 5 ∷ [])
write_chunk-Continues_example =
    write_chunk-Continues packed packed-Seals new (writer (1 ∷ [])) (1 ∷ []) (2 ∷ 3 ∷ 4 ∷ 5 ∷ [])
      (omega arith) (omega arith) (writer-IsWriting (1 ∷ []))

finish-Publishes_example :
    (out : Published) × (finish packed new (writer (1 ∷ 2 ∷ 3 ∷ [])) ≡ ok out)
    × Publishes packed packed-Seals new out (9 ∷ []) (1 ∷ 2 ∷ 3 ∷ [])
unfolding Tree.get tree_of
finish-Publishes_example =
    finish-Publishes packed packed-Seals new (writer (1 ∷ 2 ∷ 3 ∷ [])) (1 ∷ 2 ∷ 3 ∷ [])
      (omega arith) (omega arith) (writer-IsWriting (1 ∷ 2 ∷ 3 ∷ [])) tt

-- A value of three bytes in two pieces.
abbrev pointer : Bytes
pointer = encode (record { value_id = 4; n_chunks = 2; total_len = 3; flags = 0 })

abbrev holding : MemoryBackend
holding = record {
  tables = record {
    meta = [];
    records = (encode_key inner (9 ∷ []), pointer) ∷ [];
    chunks = (chunk_key 4 0, header 0 ++ (1 ∷ 2 ∷ [])) ∷ (chunk_key 4 1, header 0 ++ (3 ∷ [])) ∷ [];
  };
  is_closed = false;
}

found : fetch inner holding (9 ∷ []) ≡ ok (some pointer)
unfolding fetch get Tree.get tree_of bytes_eq with_tables encode_bytes to_be
found = refl

loaded : load_payload inner holding pointer ≡ ok (1 ∷ 2 ∷ 3 ∷ [])
unfolding load_payload is_pointer encode to_be bytes_eq parse from_be read_chunks read_groups
    get_many append_pieces group_keys Tree.get tree_of chunk_key unseal header reverse_all
    with_tables within_limits append_piece check_total seq_range
loaded = refl

reader-Streams_example : Streams inner holding refl (9 ∷ []) (1 ∷ 2 ∷ 3 ∷ [])
reader-Streams_example =
    reader-Streams inner holding refl (9 ∷ []) pointer (1 ∷ 2 ∷ 3 ∷ []) found loaded

abbrev counted : MemoryBackend
counted = record {
  tables = apply_all new.tables (put meta meta_next_value_id (to_be 8 5) ∷ []);
  is_closed = false;
}

start_run : start new (9 ∷ []) (some 4) ≡ (ok (counted, writer []), some 5)
unfolding start start_from commit_counter allocate take_id issue advance allocate_from counter_op
    counter_op_for commit with_tables
start_run = refl

start-Ends_example :
    Ends packed packed-Seals counted
      (writer [])
      ((1 ∷ []) ∷ (2 ∷ 3 ∷ 4 ∷ 5 ∷ []) ∷ [])
      (9 ∷ [])
      (1 ∷ 2 ∷ 3 ∷ 4 ∷ 5 ∷ [])
unfolding Tree.get tree_of flatten
start-Ends_example =
    start-Ends packed packed-Seals new counted (9 ∷ []) (some 4) (some 5) (writer [])
      ((1 ∷ []) ∷ (2 ∷ 3 ∷ 4 ∷ 5 ∷ []) ∷ []) refl (omega arith) start_run (omega arith) tt
      (omega arith)
