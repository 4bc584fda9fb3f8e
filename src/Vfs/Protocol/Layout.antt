-- ===== src/Vfs/Protocol/Layout.antt =====
-- The page that `build_payload` writes, against the layout of `struct hm_payload`: signature,
-- command, uid, status, argument, size, buffer. What the kernel reads back from it.
use meta_hybrid_mount.Prelude.{
  subst, ap, some, ℕ, ◌-◌, ◌%◌, ◌^◌, ◌≤◌, ◌≡◌, refl, List, [], ◌++◌, arith, ltb, if◌then◌else◌,
  length, replicate, false, Bool-cases, append_assoc, length-append, length-replicate,
  replicate-add, inl, inr,
}
use meta_hybrid_mount.Errors.{ok-injective, buffer_exceeds, ok, err}
use meta_hybrid_mount.Vfs.Protocol.Words.{
  u32_bytes, copy_at, copy_at-zeros, slice, slice-append, from_le_bytes-u32,
}
use meta_hybrid_mount.Vfs.Protocol.Encode.{
  magic_bytes, payload_len, buffer_len, NmCommand, command_number, build_payload,
}
use meta_hybrid_mount.Vfs.Protocol.Decode.{field, read_status, read_data_size, response_body}

-- The first 20 bytes of a request.
abbrev pub request_head : NmCommand → ℕ → List ℕ
request_head cmd uid =
    magic_bytes ++ (u32_bytes (command_number cmd) ++ (u32_bytes uid ++ u32_bytes 0xFFFF_FFFF))

-- The page as the structure that the kernel reads, field by field.
abbrev pub page_of : NmCommand → ℕ → List ℕ → List ℕ
page_of cmd uid buffer =
    (request_head cmd uid ++ replicate 4 0)
    ++ (u32_bytes (length buffer % 2 ^ 32) ++ (buffer ++ replicate (buffer_len - length buffer) 0))

-- The six writes of `build_payload` leave the structure.
writes-page_of :
    (cmd : NmCommand) (uid : ℕ) (buffer : List ℕ)
    → length buffer ≤ buffer_len
    → copy_at
        (copy_at
          (copy_at
            (copy_at
              (copy_at
                (copy_at (replicate payload_len 0) 0 magic_bytes)
                8
                (u32_bytes (command_number cmd)))
              12
              (u32_bytes uid))
            16
            (u32_bytes 0xFFFF_FFFF))
          24
          (u32_bytes (length buffer % 2 ^ 32)))
        28
        buffer
      ≡ page_of cmd uid buffer
unfolding u32_bytes
writes-page_of cmd uid buffer h =
    let c = u32_bytes (command_number cmd) in
    let u = u32_bytes uid in
    let minus_one = u32_bytes 0xFFFF_FFFF in
    let size = u32_bytes (length buffer % 2 ^ 32) in
    let head = request_head cmd uid in
    let gap : List ℕ = replicate 4 0 in
    let w1 = copy_at-zeros [] magic_bytes 0 4096 4088 refl refl in
    let w2 = copy_at-zeros magic_bytes c 8 4088 4084 refl refl in
    let w3 = copy_at-zeros (magic_bytes ++ c) u 12 4084 4080 refl refl in
    let w4 = copy_at-zeros (magic_bytes ++ (c ++ u)) minus_one 16 4080 4076 refl refl in
    let split = replicate-add {A = ℕ} 4 4072 0 in
    let at : 24 ≡ length (head ++ gap) = omega (arith, length-replicate {A = ℕ} 4 0) in
    let w5 = copy_at-zeros (head ++ gap) size 24 4072 4068 at refl in
    let at' : 28 ≡ length ((head ++ gap) ++ size) =
      omega (arith, length-append (head ++ gap) size) in
    let w6 =
      copy_at-zeros ((head ++ gap) ++ size) buffer 28 4068 (buffer_len - length buffer) at'
        (omega arith) in
    let regroup = append_assoc (head ++ gap) size (replicate 4068 0) in
    rw (w1, w2, w3, w4, split, w5, ← regroup, w6)
      (append_assoc (head ++ gap) size (buffer ++ replicate (buffer_len - length buffer) 0))

-- `build_payload` accepts a buffer exactly when it fits, and then writes the page that the kernel's
-- structure describes; a longer buffer is refused.
pub build_payload-page_of :
    (cmd : NmCommand) (uid : ℕ) (buffer : List ℕ)
    → build_payload cmd uid buffer ≡ (
        if ltb buffer_len (length buffer)
        then err (buffer_exceeds (length buffer))
        else ok (page_of cmd uid buffer))
unfolding build_payload
build_payload-page_of cmd uid buffer = elim (Bool-cases (ltb buffer_len (length buffer))) [
  | inl e ↦ rw e refl
  | inr e ↦ rw e (ap ok (writes-page_of cmd uid buffer (ground arith)))
]

module _ (cmd : NmCommand) (uid : ℕ) (buffer : List ℕ) where
  head_length : length (request_head cmd uid) ≡ 20
  unfolding u32_bytes
  head_length = refl

  size_at : slice (page_of cmd uid buffer) 24 4 ≡ some (u32_bytes (length buffer % 2 ^ 32))
  unfolding u32_bytes
  size_at =
      slice-append (request_head cmd uid ++ replicate 4 0) (u32_bytes (length buffer % 2 ^ 32))
        (buffer ++ replicate (buffer_len - length buffer) 0) 24 4
        (omega (arith, length-replicate {A = ℕ} 4 0)) refl

  pub data_size-page_of :
      length buffer ≤ buffer_len → read_data_size (page_of cmd uid buffer) ≡ ok (length buffer)
  unfolding read_data_size field
  data_size-page_of h =
      rw size_at (ap ok (omega (arith, from_le_bytes-u32 (length buffer % 2 ^ 32) (omega arith))))

  body_at : slice (page_of cmd uid buffer) 28 (length buffer) ≡ some buffer
  unfolding u32_bytes
  body_at =
      let head = request_head cmd uid ++ replicate 4 0 in
      let size = u32_bytes (length buffer % 2 ^ 32) in
      let rest : List ℕ = replicate (buffer_len - length buffer) 0 in
      rw (← append_assoc head size (buffer ++ rest)) (
        slice-append (head ++ size) buffer rest 28 (length buffer)
          (omega (arith, length-append head size, length-replicate {A = ℕ} 4 0)) refl)

  length-page_of : length buffer ≤ buffer_len → length (page_of cmd uid buffer) ≡ payload_len
  unfolding u32_bytes
  length-page_of h =
      let rest : List ℕ = replicate (buffer_len - length buffer) 0 in
      omega (
        arith,
        length-append (replicate 4 0) (u32_bytes (length buffer % 2 ^ 32) ++ (buffer ++ rest)),
        length-append buffer rest,
        length-replicate {A = ℕ} (buffer_len - length buffer) 0,
        length-replicate {A = ℕ} 4 0,
      )

  pub status-page_of : read_status (page_of cmd uid buffer) ≡ ok 0xFFFF_FFFF
  unfolding read_status field u32_bytes
  status-page_of =
      rw
        (slice-append (magic_bytes ++ (u32_bytes (command_number cmd) ++ u32_bytes uid))
          (u32_bytes 0xFFFF_FFFF) _ 16 4 refl refl)
        (ap ok (from_le_bytes-u32 0xFFFF_FFFF (omega arith)))

  pub body-page_of : length buffer ≤ buffer_len → response_body (page_of cmd uid buffer) ≡ ok buffer
  unfolding response_body
  body-page_of h = rw (data_size-page_of h) (rw (fits h, body_at) refl)
    where
      fits : length buffer ≤ buffer_len → ltb buffer_len (length buffer) ≡ false
      fits h' = ground arith

-- What the kernel finds in a request, field by field: a page of 4096 bytes, the signature at 0, the
-- command at 8, the uid at 12, a status of -1 at 16, the number of bytes of the buffer at 24 and
-- those bytes behind it.
pub record ReadsBack (page : List ℕ) (cmd : NmCommand) (uid : ℕ) (buffer : List ℕ) : Type 0 where
  pub size : length page ≡ payload_len
  pub magic : slice page 0 8 ≡ some magic_bytes
  pub command : slice page 8 4 ≡ some (u32_bytes (command_number cmd))
  pub target_uid : slice page 12 4 ≡ some (u32_bytes uid)
  pub status : read_status page ≡ ok 0xFFFF_FFFF
  pub data_size : read_data_size page ≡ ok (length buffer)
  pub body : response_body page ≡ ok buffer

page_of-ReadsBack :
    (cmd : NmCommand) (uid : ℕ) (buffer : List ℕ)
    → length buffer ≤ buffer_len
    → ReadsBack (page_of cmd uid buffer) cmd uid buffer
unfolding u32_bytes
page_of-ReadsBack cmd uid buffer h = record {
  size = length-page_of cmd uid buffer h;
  magic = slice-append [] magic_bytes _ 0 8 refl refl;
  command = slice-append magic_bytes (u32_bytes (command_number cmd)) _ 8 4 refl refl;
  target_uid =
      slice-append (magic_bytes ++ u32_bytes (command_number cmd)) (u32_bytes uid) _ 12 4 refl refl;
  status = status-page_of cmd uid buffer;
  data_size = data_size-page_of cmd uid buffer h;
  body = body-page_of cmd uid buffer h;
}

-- A page that `build_payload` returns reads back as what it was built from, and its buffer fitted.
pub build_payload-ReadsBack :
    (cmd : NmCommand) (uid : ℕ) (buffer : List ℕ) {page : List ℕ}
    → build_payload cmd uid buffer ≡ ok page
    → (length buffer ≤ buffer_len) × ReadsBack page cmd uid buffer
build_payload-ReadsBack cmd uid buffer {page} h =
    let h' = rw build_payload-page_of at h in
    elim (Bool-cases (ltb buffer_len (length buffer))) [
      | inl e ↦ cc (rw e at h')
      | inr e ↦
          let fits : length buffer ≤ buffer_len = ground arith in
          let same : page_of cmd uid buffer ≡ page = ok-injective (rw e at h') in
          (
            fits,
            subst (λ p. ReadsBack p cmd uid buffer) same (page_of-ReadsBack cmd uid buffer fits),
          )
    ]
