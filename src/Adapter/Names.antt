-- ===== src/Adapter/Names.antt =====
-- The names that tie a client to the daemon of its device: `GeneratePidFileName`, for the lock, and the
-- socket, of src/Adapter.cpp.
use ritex.Base.{
  ℕ, ◌^◌, ◌≤◌, ◌<◌, ◌≡◌, sym, ap, ◌∙◌, ◌++◌, length, take, take_all, drop, length-append,
  drop_length-append, arith,
}
use ritex.Decimal.{itoa, number_of}
use ritex.Decimal.Laws.{number_of-itoa, length-itoa}
use ritex.CmdLine.Words.{Word, bytes_of}

-- A name of 32 bytes at most, with the zero byte at its end.
unfoldable pub generate_pid_file_name : Word → ℕ → Word
generate_pid_file_name name device_id = take 31 (name ++ (bytes_of "-lock-" ++ itoa device_id))

-- `m_socket`: the base part from the constructor, and the device as the client wrote it.
unfoldable pub socket_name : Word → Word → Word
socket_name name device_id_raw = name ++ (bytes_of "_socket" ++ device_id_raw)

-- The number of the device behind the name.
pub generate_pid_file_name_whole :
    (name : Word) (device_id : ℕ)
    → length name ≤ 15
    → generate_pid_file_name name device_id ≡ name ++ (bytes_of "-lock-" ++ itoa device_id)
unfolding generate_pid_file_name
generate_pid_file_name_whole name device_id h =
    take_all 31 (name ++ (bytes_of "-lock-" ++ itoa device_id)) (
      omega (
        arith,
        length-append name (bytes_of "-lock-" ++ itoa device_id),
        length-append (bytes_of "-lock-") (itoa device_id),
        length-itoa device_id,
      ))

-- For a name of the adapter of at most 15 bytes, and two devices below 2 ^ 31: where their locks
-- have the same name, in at most 31 bytes, they are the same device.
pub generate_pid_file_name_inj :
    (name : Word) (a b : ℕ)
    → length name ≤ 15
    → a < 2 ^ 31
    → b < 2 ^ 31
    → generate_pid_file_name name a ≡ generate_pid_file_name name b
    → a ≡ b
generate_pid_file_name_inj name a b short small_a small_b same =
    let whole =
      sym (generate_pid_file_name_whole name a short)
      ∙ same
      ∙ generate_pid_file_name_whole name b short in
    let behind =
      sym (drop_length-append name (bytes_of "-lock-" ++ itoa a))
      ∙ ap (drop (length name)) whole
      ∙ drop_length-append name (bytes_of "-lock-" ++ itoa b) in
    sym (number_of-itoa a small_a)
    ∙ ap (λ w. number_of (drop 6 w)) behind
    ∙ number_of-itoa b small_b
