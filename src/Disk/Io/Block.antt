-- ===== src/Disk/Io/Block.antt =====
-- The block commands (src/istgt/istgt_lu_disk.c: istgt_lu_disk_transfer_data,
-- istgt_lu_disk_lbread, istgt_lu_disk_lbwrite, istgt_lu_disk_lbwrite_same,
-- istgt_lu_disk_lbwrite_ats, istgt_lu_disk_lbsync). Products are `uint64_t`, with the wrap written
-- out. An error leaves it open what `iobuf` holds: the model keeps what it held before.
use istgt.Prelude.{
  ℕ, zero, suc, ◌+◌, ◌-◌, ◌*◌, ◌/◌, ◌%◌, ◌^◌, List, [], ◌∷◌, ◌++◌, Bool, true, false, ◌||◌, ◌&&◌,
  not, Option, none, some, if◌then◌else◌, ◌==◌, ◌!=◌, leb, ltb, str_eq, take, length,
}
use istgt.Misc.Bytes.{Buf, at_offset, dmin}
use istgt.Disk.Types.{ret, fail}
use istgt.Disk.Sense.{build_sense_data, illegal_request, miscompare}
use istgt.Disk.Io.{Backend, IoDisk, IoConn, IoCmd, IoReply, Transfer, slice}

-- ISTGT_LU_WORK_BLOCK_SIZE and ISTGT_LU_WORK_ATS_BLOCK_SIZE
abbrev pub work_block_size : ℕ
work_block_size = 1048576

-- The size of a work buffer, which is allocated where it is NULL.
unfoldable pub worksize : Option ℕ → ℕ
worksize none = work_block_size
worksize (some n) = n

-- The guard in front of every command: past the end of the medium.
unfoldable pub is_beyond : (maxlba lba llen : ℕ) → Bool
is_beyond maxlba lba llen = leb maxlba lba || ltb maxlba llen || ltb (maxlba - llen) lba

-- A product of `uint64_t`s
unfoldable pub mul64 : ℕ → ℕ → ℕ
mul64 a b = a * b % 2 ^ 64

-- `memcmp(a, b, n) == 0`, for the bytes of both
unfoldable pub memcmp_eq : List ℕ → List ℕ → Bool
memcmp_eq a b = str_eq a b

module _ {ℓ} {σ : Type ℓ} where
  abbrev pub failed : IoDisk σ → IoConn → IoCmd → IoReply σ
  failed spec conn cmd = record { spec = spec; conn = conn; cmd = cmd; rc = fail }

  abbrev pub done : IoDisk σ → IoConn → IoCmd → IoReply σ
  done spec conn cmd = record { spec = spec; conn = conn; cmd = cmd; rc = ret 0 }

  -- BUILD_SENSE and `return -1`
  abbrev pub io_sense : ℕ → ℕ → ℕ → IoDisk σ → IoConn → IoCmd → IoReply σ
  io_sense sk asc ascq spec conn cmd =
      failed spec conn (record cmd { sense = build_sense_data sk asc ascq })

  unfoldable pub transfer_data : Transfer → IoDisk σ → IoCmd → ℕ → Option IoCmd
  transfer_data transfer spec cmd len =
      if spec.queue_depth == 0
      then if ltb cmd.iobufsize len then none else elim (transfer cmd.iobuf cmd.iobufsize len) [
        | none ↦ none
        | some bytes ↦ some (record cmd { iobuf = bytes })
      ]
      else some cmd

-- The bytes that were read, in front of what the buffer held.
unfoldable pub filled : List ℕ → Buf → Buf
filled [] b i = b i
filled (x ∷ xs) b zero = x
filled (x ∷ xs) b (suc i) = filled xs (at_offset b 1) i

-- `wblocks` copies of a block, one behind the other.
unfoldable pub copies : ℕ → List ℕ → List ℕ
copies zero block = []
copies (suc n) block = block ++ copies n block

module _ {ℓ} {σ : Type ℓ} (b : Backend σ) where
  unfoldable pub lbread : IoDisk σ → IoConn → IoCmd → (lba len : ℕ) → IoReply σ
  unfolding is_beyond mul64
  lbread spec conn cmd lba len =
      if is_beyond spec.blockcnt lba len
      then io_sense illegal_request 0x21 0x00 spec conn cmd
      else if len == 0
      then done spec conn (record cmd { data_buf = none; data_len = 0 })
      else if ltb cmd.iobufsize (mul64 len spec.blocklen)
      then failed spec conn cmd
      else elim (b.pread spec.medium (mul64 len spec.blocklen) (mul64 lba spec.blocklen)) [
        | none ↦ failed spec conn cmd
        | some bytes ↦
            let iobuf = filled bytes cmd.iobuf in
            done spec conn
              (record cmd { iobuf = iobuf; data_buf = some iobuf; data_len = length bytes })
      ]

  -- A write of the bytes, which must be complete, with the length that is then reported.
  unfoldable pub write_out :
      IoDisk σ → IoConn → IoCmd → List ℕ → (nbytes offset data_len : ℕ) → IoReply σ
  write_out spec conn cmd bytes nbytes offset data_len =
      let r = b.pwrite spec.medium bytes offset in
      elim r.1 [
        | none ↦ failed (record spec { medium = r.0 }) conn cmd
        | some n ↦
            if n == nbytes
            then done (record spec { medium = r.0 }) conn (record cmd { data_len = data_len })
            else failed (record spec { medium = r.0 }) conn cmd
      ]

  unfoldable pub lbwrite : Transfer → IoDisk σ → IoConn → IoCmd → (lba len : ℕ) → IoReply σ
  unfolding is_beyond mul64 transfer_data write_out
  lbwrite transfer spec conn cmd0 lba len =
      let nbytes = mul64 len spec.blocklen in
      if is_beyond spec.blockcnt lba len
      then io_sense illegal_request 0x21 0x00 spec conn cmd0
      else if len == 0
      then done spec conn (record cmd0 { data_len = 0 })
      else if ltb cmd0.iobufsize nbytes
      then failed spec conn cmd0
      else elim (transfer_data transfer spec cmd0 nbytes) [
        | none ↦ failed spec conn cmd0
        | some cmd ↦
            if spec.readonly
            then failed spec conn cmd
            else write_out spec conn cmd (slice cmd.iobuf 0 nbytes) nbytes (mul64 lba spec.blocklen)
                nbytes
      ]

  -- The loop of WRITE SAME over the blocks that are left, in pieces of at most `wblocks`. Every
  -- round writes a block or more, so as many rounds as there are blocks are enough.
  unfoldable pub same_loop : (rounds : ℕ) → σ → List ℕ → (blen wblocks offset rest : ℕ) → σ × Bool
  unfolding mul64 dmin
  same_loop zero s workbuf blen wblocks offset rest = (s, rest == 0)
  same_loop (suc rounds) s workbuf blen wblocks offset rest =
      let reqblocks = dmin wblocks rest in
      let reqbytes = mul64 reqblocks blen in
      let r = b.pwrite s (take reqbytes workbuf) offset in
      let more =
        same_loop rounds r.0 workbuf blen wblocks ((offset + reqbytes) % 2 ^ 64)
          (rest - reqblocks) in
      if rest == 0
      then (s, true)
      else elim r.1 [ none ↦ (r.0, false) | some n ↦ if n == reqbytes then more else (r.0, false) ]

  -- WRITE SAME from the allocation of `workbuf` on.
  unfoldable pub same_out : IoDisk σ → IoConn → IoCmd → (lba llen : ℕ) → IoReply σ
  unfolding same_loop mul64 copies worksize
  same_out spec conn0 cmd lba llen =
      let conn = record conn0 { worksize = some (worksize conn0.worksize) } in
      let wblocks = worksize conn0.worksize / spec.blocklen in
      let r =
        same_loop llen spec.medium (copies wblocks (slice cmd.iobuf 0 spec.blocklen)) spec.blocklen
          wblocks (mul64 lba spec.blocklen) llen in
      let spec1 = record spec { medium = r.0; req_write_cache = false } in
      if wblocks == 0
      then failed spec conn cmd
      else if r.1
      then done spec1 conn (record cmd { data_len = spec.blocklen })
      else failed spec1 conn cmd

  -- A length of 0 is all blocks from `lba` on.
  unfoldable pub lbwrite_same : Transfer → IoDisk σ → IoConn → IoCmd → (lba len : ℕ) → IoReply σ
  unfolding is_beyond transfer_data same_out
  lbwrite_same transfer spec conn cmd lba len =
      let cmd0 = record cmd { sense = [] } in
      let llen = if len == 0 then spec.blockcnt - lba else len in
      if len == 0 && leb spec.blockcnt lba
      then io_sense illegal_request 0x21 0x00 spec conn cmd0
      else if is_beyond spec.blockcnt lba llen
      then io_sense illegal_request 0x21 0x00 spec conn cmd0
      else if ltb cmd0.iobufsize spec.blocklen
      then failed spec conn cmd0
      else elim (transfer_data transfer spec cmd0 spec.blocklen) [
        | none ↦ failed spec conn cmd0
        | some cmd1 ↦
            if spec.readonly then failed spec conn cmd1 else same_out spec conn cmd1 lba llen
      ]

  -- What is done under `ats_mutex`: the blocks are read, compared, and written.
  unfoldable pub test_and_set : IoDisk σ → IoConn → IoCmd → (nbytes offset : ℕ) → IoReply σ
  unfolding memcmp_eq write_out mul64
  test_and_set spec conn cmd nbytes offset = elim (b.pread spec.medium nbytes offset) [
    | none ↦ failed spec conn cmd
    | some bytes ↦
        if length bytes != nbytes
        then failed spec conn cmd
        else if not (memcmp_eq bytes (slice cmd.iobuf 0 nbytes))
        then io_sense miscompare 0x1d 0x00 spec conn cmd
        else write_out spec conn cmd (slice cmd.iobuf nbytes nbytes) nbytes offset (mul64 nbytes 2)
  ]

  unfoldable pub ats_out : IoDisk σ → IoConn → IoCmd → (nbytes offset : ℕ) → IoReply σ
  unfolding test_and_set worksize
  ats_out spec0 conn cmd nbytes offset =
      let spec = record spec0 { watssize = some (worksize spec0.watssize) } in
      if ltb (worksize spec0.watssize) nbytes
      then failed spec conn cmd
      else test_and_set (record spec { req_write_cache = false }) conn cmd nbytes offset

  unfoldable pub lbwrite_ats : Transfer → IoDisk σ → IoConn → IoCmd → (lba len : ℕ) → IoReply σ
  unfolding is_beyond mul64 transfer_data ats_out
  lbwrite_ats transfer spec conn cmd lba len =
      let nbytes = mul64 len spec.blocklen in
      let cmd0 = record cmd { sense = [] } in
      if len == 0
      then done spec conn (record cmd { data_len = 0 })
      else if is_beyond spec.blockcnt lba len
      then failed spec conn cmd0
      else if ltb cmd0.iobufsize nbytes
      then failed spec conn cmd0
      else elim (transfer_data transfer spec cmd0 (mul64 nbytes 2)) [
        | none ↦ failed spec conn cmd0
        | some cmd1 ↦
            if spec.readonly
            then failed spec conn cmd1
            else ats_out spec conn cmd1 nbytes (mul64 lba spec.blocklen)
      ]

  unfoldable pub lbsync : IoDisk σ → IoConn → IoCmd → (lba len : ℕ) → IoReply σ
  unfolding is_beyond mul64
  lbsync spec conn cmd lba len =
      let llen = if len == 0 && ltb lba spec.blockcnt then spec.blockcnt - lba else len in
      let r = b.sync spec.medium (mul64 llen spec.blocklen) (mul64 lba spec.blocklen) in
      if is_beyond spec.blockcnt lba llen
      then failed spec conn cmd
      else if r.1
      then done (record spec { medium = r.0 }) conn cmd
      else failed (record spec { medium = r.0 }) conn cmd
