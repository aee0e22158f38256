-- ===== src/Proto/Size.antt =====
-- The size in bytes of an entry under msgpack, raft-kv/raft/proto.cpp, and the cut of a batch by
-- its size, entry_limit_size of raft-kv/raft/util.cpp.
pub mod Limit
use kvd.Base.{
  ℕ, ◌-◌, ◌^◌, List, [], ◌∷◌, ltb, leb, if◌then◌else◌, length, add32, add64, u32_mod, ◌%◌,
}
use kvd.Proto.{Entry}

u8_serialize_size : ℕ → ℕ
u8_serialize_size d = if ltb d (2 ^ 7) then 1 else 2

u64_serialize_size : ℕ → ℕ
u64_serialize_size d =
    if ltb d (2 ^ 8)
    then (if ltb d (2 ^ 7) then 1 else 2)
    else if ltb d (2 ^ 16)
    then 3
    else if ltb d (2 ^ 32)
    then 5
    else 9

-- The argument is a uint32_t, so that one of the three tests passes.
data_serialize_size : ℕ → ℕ
unfolding add32
data_serialize_size len =
    if leb len (2 ^ 8 - 1)
    then add32 2 len
    else if leb len (2 ^ 16 - 1)
    then add32 3 len
    else add32 5 len

unfoldable pub serialize_size : Entry → ℕ
unfolding u8_serialize_size u64_serialize_size data_serialize_size add32
serialize_size e =
    add32
      (add32 (add32 (add32 1 (u8_serialize_size e.type)) (u64_serialize_size e.term))
        (u64_serialize_size e.index))
      (data_serialize_size (length e.payload % u32_mod))

-- The loop from `limit` on: `size` is what the entries before take.
unfoldable pub limit_rest : ℕ → ℕ → List Entry → List Entry
limit_rest max_size size [] = []
limit_rest max_size size (e ∷ es) =
    let size' : ℕ = add64 size (serialize_size e) in
    let rest = limit_rest max_size size' es in if ltb max_size size' then [] else e ∷ rest

unfoldable pub entry_limit_size : ℕ → List Entry → List Entry
unfolding limit_rest
entry_limit_size max_size [] = []
entry_limit_size max_size (e ∷ es) = e ∷ limit_rest max_size (serialize_size e) es
