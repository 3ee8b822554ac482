-- ===== src/Pb/Size.antt =====
-- raft/raftpb/raft.pb.go: the encoded size of an entry.
use yyckv.Base.{ℕ, zero, suc, ◌+◌, ◌*◌, ◌/◌, Option, none, some, List, length, ◌==◌, if◌then◌else◌}
use yyckv.Pb.Types.{Entry, entry_type_value}

-- `bits.Len64`, with fuel for the 64 bits of a word.
abbrev pub bit_len : ℕ → ℕ → ℕ
bit_len zero x = 0
bit_len (suc fuel) x = let rest = bit_len fuel (x / 2) in if x == 0 then 0 else suc rest

-- `x|1` is `2 * (x / 2) + 1`.
unfoldable pub sov_raft : ℕ → ℕ
sov_raft x = (bit_len 64 (2 * (x / 2) + 1) + 6) / 7

abbrev payload_field : Option (List ℕ) → ℕ
unfolding sov_raft
payload_field none = 0
payload_field (some xs) = 1 + length xs + sov_raft (length xs)

unfoldable pub entry_size : Entry → ℕ
unfolding sov_raft
entry_size e =
    (1 + sov_raft (entry_type_value e.typ))
    + (1 + sov_raft e.term)
    + (1 + sov_raft e.index)
    + payload_field e.payload
