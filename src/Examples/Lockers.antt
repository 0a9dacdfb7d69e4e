-- ===== src/Examples/Lockers.antt =====
-- src/locker: walks, chunked values and value ids.
use crossbank.Prelude.{
  ◌<◌, ◌≡◌, ◌↔◌, refl, arith, true, false, Option, none, some, List, [], ◌∷◌, ◌++◌, map, All, keep,
}
use crossbank.Error.{Result, ok, ◌>>=◌}
use crossbank.Bytes.{Bytes, IsBytes, bytes_lt, bytes_eq}
use crossbank.Bytes.Number.{to_be, from_be}
use crossbank.Examples.Values.{are_bytes-IsBytes}
use crossbank.Tree.{Tree, IsSorted, range, range_panics}
use crossbank.Tree
use crossbank.Backend.Api.{records, chunks, included, unbounded, contains, meta, Op, put}
use crossbank.Backend.Memory
use crossbank.Backend.Memory.{
  MemoryBackend, new, commit, in_direction, with_tables, scan_tree, collect, tree_of, apply_all,
}
use crossbank.Backend.Memory.Paging.{item}
use crossbank.Backend.Memory.Refines.{value_at}
use crossbank.Codec.Chain.{raw, header, seal, seal_slice, forward_all}
use crossbank.Locker.Chunk.{
  encode, parse, chunk_key, allocate, take_id, issue, advance, allocate_from, allocate_seeding,
  seed_floor, parse_counter, highest_stored_id, id_of_first, above_id, seed_and_take, counter_op,
  counter_op_for, meta_next_value_id,
}
use crossbank.Locker.Chunk.Pointer.{IsPointer, parse_iff}
use crossbank.Locker.Chunk.Ids.{opened, took, seeded, Descending, Run-Descending}
use crossbank.Locker.Chunk.Fresh.{allocate-fresh}
use crossbank.Locker.Policy.{default_config}
use crossbank.Locker.Inner.{Inner, absent, needs_read, stores_inline, encode_key}
use crossbank.Locker.Inner.Walk.{walk}
use crossbank.Locker.Inner.Walk.Records.{own_records, visit_all, walk-visit_all}
use crossbank.Locker.Inner.Read.{read_chunks, append_pieces, check_total, group_keys}
use crossbank.Locker.Inner.Read.Groups.{read_chunks-append_pieces}
use crossbank.Locker.Inner.Write.{
  put_payload_ops, put_after_prior, prior_ops, after_allocate, chunked_ops, pieces, pieces_of,
  piece_ops, next_seq,
}
use crossbank.Locker.Inner.Write.RoundTrip.{load_payload-put, Stored}

-- A locker with chunks of two bytes and pages of one record.
abbrev pub inner : Inner
inner = record {
  id = 2;
  chain = raw;
  config = record default_config { chunk_size = 2; max_inline = 64 };
  scan_page = 1;
}

abbrev payload : Bytes
payload = 1 ∷ 2 ∷ 3 ∷ []

-- Three records of three lockers.
abbrev shared : MemoryBackend
shared = record {
  tables = record {
    meta = [];
    records =
        (0 ∷ 0 ∷ 0 ∷ 1 ∷ 9 ∷ [], 10 ∷ [])
        ∷ (0 ∷ 0 ∷ 0 ∷ 2 ∷ 5 ∷ [], 20 ∷ [])
        ∷ (0 ∷ 0 ∷ 0 ∷ 2 ∷ 6 ∷ [], 21 ∷ [])
        ∷ (0 ∷ 0 ∷ 0 ∷ 3 ∷ [], 30 ∷ [])
        ∷ [];
    chunks = (chunk_key 4 0, 1 ∷ []) ∷ [];
  };
  is_closed = false;
}

abbrev keep_keys : List Bytes → Bytes → Option Bytes → Result (List Bytes)
keep_keys seen k v = ok (k ∷ seen)

shared-IsSorted : IsSorted shared.tables.records
unfolding bytes_lt
shared-IsSorted = ((refl, (refl, (refl, tt))), ((refl, (refl, tt)), ((refl, tt), (tt, tt))))

shared-IsBytes : All (λ e. IsBytes e.0) shared.tables.records
shared-IsBytes = (
  are_bytes-IsBytes (0 ∷ 0 ∷ 0 ∷ 1 ∷ 9 ∷ []) refl,
  (
    are_bytes-IsBytes (0 ∷ 0 ∷ 0 ∷ 2 ∷ 5 ∷ []) refl,
    (
      are_bytes-IsBytes (0 ∷ 0 ∷ 0 ∷ 2 ∷ 6 ∷ []) refl,
      (are_bytes-IsBytes (0 ∷ 0 ∷ 0 ∷ 3 ∷ []) refl, tt),
    ),
  ),
)

walk-visit_all_example :
    walk keep_keys inner shared (included (5 ∷ [])) unbounded true false []
    ≡ visit_all keep_keys [] (
        map (item false) (
          in_direction true (
            own_records 2
              (record { start = included (5 ∷ []); finish = unbounded })
              shared.tables.records)))
walk-visit_all_example =
    walk-visit_all keep_keys inner shared (included (5 ∷ [])) unbounded true false [] refl
      shared-IsSorted shared-IsBytes (omega arith) (omega arith) (omega arith, tt) tt

parse_iff_example :
    (parse (encode (record { value_id = 4; n_chunks = 2; total_len = 3; flags = 0 }))
      ≡ ok (record { value_id = 4; n_chunks = 2; total_len = 3; flags = 0 }))
    ↔ (IsPointer (record { value_id = 4; n_chunks = 2; total_len = 3; flags = 0 })
        × (encode (record { value_id = 4; n_chunks = 2; total_len = 3; flags = 0 })
            ≡ encode (record { value_id = 4; n_chunks = 2; total_len = 3; flags = 0 })))
unfolding encode to_be
parse_iff_example =
    parse_iff (encode (record { value_id = 4; n_chunks = 2; total_len = 3; flags = 0 }))
      (record { value_id = 4; n_chunks = 2; total_len = 3; flags = 0 })
      (are_bytes-IsBytes (encode (record { value_id = 4; n_chunks = 2; total_len = 3; flags = 0 }))
        refl)

read_chunks-append_pieces_example :
    read_chunks inner shared (record { value_id = 4; n_chunks = 2; total_len = 3; flags = 0 }) ≡ (
      append_pieces raw
        (record { value_id = 4; n_chunks = 2; total_len = 3; flags = 0 })
        0
        []
        (map
          (λ k. value_at shared.tables chunks k)
          (group_keys (record { value_id = 4; n_chunks = 2; total_len = 3; flags = 0 }) 0 2))
      >>= check_total (record { value_id = 4; n_chunks = 2; total_len = 3; flags = 0 }))
read_chunks-append_pieces_example =
    read_chunks-append_pieces inner shared
      (record { value_id = 4; n_chunks = 2; total_len = 3; flags = 0 }) refl

Run-Descending_example : Descending (7 ∷ 3 ∷ 2 ∷ [])
unfolding take_id seed_and_take issue advance
Run-Descending_example =
    Run-Descending (7 ∷ 3 ∷ 2 ∷ []) (some 8)
      (seeded (took (seeded opened 2 2 (some 3) refl) 3 (some 4) refl) 7 7 (some 8) refl)

allocate_run : allocate shared none ≡ (ok 5, some 6)
unfolding allocate take_id issue advance allocate_from allocate_seeding seed_floor parse_counter
    highest_stored_id id_of_first above_id seed_and_take Memory.scan Memory.get with_tables
    scan_tree collect in_direction range keep contains Tree.get bytes_eq from_be chunk_key to_be
    tree_of range_panics
allocate_run = refl

held : value_at shared.tables chunks (chunk_key 4 0) ≡ some (1 ∷ [])
unfolding Tree.get bytes_eq chunk_key to_be tree_of
held = refl

chunks-IsBytes : All (λ e. IsBytes e.0) shared.tables.chunks
unfolding chunk_key to_be
chunks-IsBytes = (are_bytes-IsBytes (chunk_key 4 0) refl, tt)

allocate-fresh_example : 4 < 5
allocate-fresh_example =
    allocate-fresh shared (some 6) 5 refl (tt, tt) chunks-IsBytes allocate_run 4 0 (1 ∷ [])
      (omega arith) held

-- A payload of three bytes in chunks of two.
abbrev written : List Op
written =
    put chunks (chunk_key 4 0) (header 0 ++ (1 ∷ 2 ∷ []))
    ∷ put chunks (chunk_key 4 1) (header 0 ++ (3 ∷ []))
    ∷ put records (encode_key inner (9 ∷ []))
        (encode (record { value_id = 4; n_chunks = 2; total_len = 3; flags = 0 }))
    ∷ put meta meta_next_value_id (to_be 8 5)
    ∷ []

put_run : put_payload_ops inner new (9 ∷ []) payload 0 absent (some 4) ≡ (ok written, some 5)
unfolding put_payload_ops put_after_prior prior_ops needs_read stores_inline allocate take_id issue
    advance allocate_from after_allocate chunked_ops pieces pieces_of piece_ops next_seq seal_slice
    seal forward_all counter_op counter_op_for
put_run = refl

commit_run :
    commit new written ≡ ok (record { tables = apply_all new.tables written; is_closed = false })
unfolding commit with_tables
commit_run = refl

load_payload-put_example :
    Stored inner
      (record { tables = apply_all new.tables written; is_closed = false })
      (9 ∷ [])
      payload
load_payload-put_example =
    load_payload-put inner new (record { tables = apply_all new.tables written; is_closed = false })
      (9 ∷ []) payload 0 absent (some 4) (some 5) written (λ piece short. tt) (omega arith) put_run
      commit_run
