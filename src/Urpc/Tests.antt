-- ===== src/Urpc/Tests.antt =====
-- Runs of the protocol, and its theorems at concrete inputs.
use r.Base.{drop, take, none, true, ◌≡◌, ◌++◌, refl, some, [], ◌∷◌, Bytes, arith}
use r.Base.Machine.{to_i32, add32}
use r.Base.Int.{◌+ℤ◌, pos}
use r.Error.{ok}
use r.Store.BigEndian.{be32, be32, put_i64, put_i32, big_endian}
use r.Urpc.Commands
use r.Urpc.Commands.{RpcResponseCommand}
use r.Urpc.Cursor.{utf8_from, is_utf8}
use r.Urpc.Frame.{check, parse_frame}
use r.Urpc.Writing.{info_len, info, header, write}
use r.Urpc.Checking.{check-write, parse_frame-take}
use r.Urpc.RoundTrip.{parse_frame-write}
use r.Urpc.Reading.{Finds, read_frame-write}

abbrev fine : RpcResponseCommand
fine = record { request_id = pos 7; status_code = pos 0; ret_msg = 111 ∷ 107 ∷ [] }

utf8_of_fine : is_utf8 (111 ∷ 107 ∷ []) ≡ true
unfolding utf8_from
utf8_of_fine = refl

check-write_example :
    (bytes : Bytes) × (write big_endian (Commands.rpc_response fine) ≡ ok bytes)
    × (check big_endian (bytes ++ (1 ∷ 2 ∷ [])) ≡ ok (tt, 1 ∷ 2 ∷ []))
check-write_example = check-write big_endian (Commands.rpc_response fine) (1 ∷ 2 ∷ []) (omega arith)

parse_frame-write_example :
    (bytes : Bytes) × (write big_endian (Commands.rpc_response fine) ≡ ok bytes)
    × (parse_frame big_endian (bytes ++ (1 ∷ 2 ∷ []))
        ≡ ok (some (Commands.rpc_response fine), 1 ∷ 2 ∷ []))
parse_frame-write_example =
    parse_frame-write big_endian fine (1 ∷ 2 ∷ []) (omega arith) (omega arith) (omega arith)
      utf8_of_fine

-- The frame of `fine`, of which two bytes have arrived.
abbrev fine_bytes : Bytes
fine_bytes =
    0 ∷ 0 ∷ 0 ∷ 18 ∷ 0 ∷ 0 ∷ 0 ∷ 0 ∷ 0 ∷ 0 ∷ 0 ∷ 0 ∷ 0 ∷ 0 ∷ 0 ∷ 0 ∷ 7 ∷ 0 ∷ 0 ∷ 0 ∷ 0 ∷ 0 ∷ 0 ∷ 0
    ∷ 2 ∷ 111 ∷ 107 ∷ []

fine_written : write big_endian (Commands.rpc_response fine) ≡ ok fine_bytes
unfolding big_endian write header info info_len put_i32 put_i64 be32 to_i32 add32 ◌+ℤ◌
fine_written = refl

parse_frame-take_example : parse_frame big_endian (0 ∷ 0 ∷ []) ≡ ok (none, 0 ∷ 0 ∷ [])
parse_frame-take_example =
    parse_frame-take big_endian (Commands.rpc_response fine) fine_bytes 2 (omega arith) fine_written
      (omega arith)

fine_cut : take 2 fine_bytes ++ (drop 2 fine_bytes ++ []) ≡ fine_bytes ++ []
fine_cut = refl

-- The frame of `fine` in two reads.
read_frame-write_example :
    Finds big_endian [] (take 2 fine_bytes ∷ drop 2 fine_bytes ∷ []) (Commands.rpc_response fine) []
read_frame-write_example =
    read_frame-write big_endian fine fine_bytes [] [] (take 2 fine_bytes ∷ drop 2 fine_bytes ∷ [])
      (omega arith) (omega arith) (omega arith) utf8_of_fine fine_written
      (λ e. absurd (ground arith), (λ e. absurd (ground arith), tt)) fine_cut
