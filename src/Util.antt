-- ===== src/Util.antt =====
-- src/util.rs: the checksum of bytes, chunk by chunk over the hasher of the crc32fast crate, which is
-- an interface, and the name of a worker from its address and ports.
use r.Base.{
  ℕ, zero, suc, ◌≤◌, Option, none, some, [], ◌∷◌, ◌++◌, Bytes, length, take, drop, ◌≡◌, refl, ap,
  sym, ◌∙◌, arith, length-drop,
}
use r.Base.Int.{ℤ, pos}
use r.Base.Decimal.{display}

-- The hasher: updates with the parts of some bytes are an update with all of them.
pub record Hasher : Type 1 where
  pub State : Type 0
  pub new : State
  pub update : State → Bytes → State
  pub finalize : State → ℕ
  pub update-nil : (h : State) → update h [] ≡ h
  pub update-append : (h : State) (a b : Bytes) → update (update h a) b ≡ update h (a ++ b)

abbrev length_per_crc : ℕ
length_per_crc = 4096

take-drop : (n : ℕ) (bytes : Bytes) → take n bytes ++ drop n bytes ≡ bytes
take-drop zero bytes = refl
take-drop (suc n) [] = refl
take-drop (suc n) (b ∷ bytes) = ap (λ (l : Bytes). b ∷ l) (take-drop n bytes)

module _ (H : Hasher) where
  -- The loop over the starts of the chunks, on fuel of a round for each byte.
  unfoldable pub update_chunks : ℕ → Bytes → H.State → H.State
  update_chunks zero bytes crc32 = crc32
  update_chunks (suc fuel) [] crc32 = crc32
  update_chunks (suc fuel) (b ∷ bytes) crc32 =
      update_chunks fuel (drop length_per_crc (b ∷ bytes))
        (H.update crc32 (take length_per_crc (b ∷ bytes)))

  unfoldable pub get_crc : Bytes → ℤ
  unfolding update_chunks
  get_crc bytes = pos (H.finalize (update_chunks (length bytes) bytes H.new))

  update_chunks_lem :
      (fuel : ℕ) (bytes : Bytes) (h : H.State)
      → length bytes ≤ fuel
      → update_chunks fuel bytes h ≡ H.update h bytes
  unfolding update_chunks
  update_chunks_lem zero [] h enough = sym (H.update-nil h)
  update_chunks_lem zero (b ∷ bytes) h enough = absurd (omega (arith, enough))
  update_chunks_lem (suc fuel) [] h enough = sym (H.update-nil h)
  update_chunks_lem (suc fuel) (b ∷ bytes) h enough =
      let rest : length (drop length_per_crc (b ∷ bytes)) ≤ fuel =
        omega (arith, enough, length-drop length_per_crc (b ∷ bytes)) in
      update_chunks_lem fuel (drop length_per_crc (b ∷ bytes)) _ rest
      ∙ (H.update-append h (take length_per_crc (b ∷ bytes)) (drop length_per_crc (b ∷ bytes))
          ∙ ap (H.update h) (take-drop length_per_crc (b ∷ bytes)))

  -- The checksum chunk by chunk is that of the bytes in one.
  get_crc_lem : (bytes : Bytes) → get_crc bytes ≡ pos (H.finalize (H.update H.new bytes))
  unfolding get_crc
  get_crc_lem bytes =
      ap (λ h. pos (H.finalize h)) (update_chunks_lem (length bytes) bytes H.new (omega arith))

abbrev dash : Bytes
dash = 45 ∷ []

-- The address of the worker, printed, is an argument; a port is an i32 or a u16.
unfoldable pub generate_worker_uid : Bytes → ℤ → Option ℤ → Bytes
generate_worker_uid ip grpc_port none = ip ++ (dash ++ display grpc_port)
generate_worker_uid ip grpc_port (some urpc_port) =
    ip ++ (dash ++ (display grpc_port ++ (dash ++ display urpc_port)))

unfoldable pub gen_worker_uid : Bytes → ℤ → Bytes
gen_worker_uid ip grpc_port = ip ++ (dash ++ display grpc_port)
