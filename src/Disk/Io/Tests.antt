-- ===== src/Disk/Io/Tests.antt =====
-- The theorems on block I/O at a unit of four blocks of two bytes, in memory.
use istgt.Prelude.{◌≤◌, ◌≡◌, ◌≢◌, ◌⊎◌, inl, inr, refl, [], ◌∷◌, true, false, none, some, arith}
use istgt.Misc.Bytes.{Buf, buf_of}
use istgt.Disk.Types.{ret, fail}
use istgt.Disk.Sense.{build_sense_data, miscompare}
use istgt.Disk.Io.{IoDisk, IoConn, IoCmd, Transfer, slice}
use istgt.Disk.Io.Block.{
  lbread, lbwrite, lbwrite_same, lbwrite_ats, copies, transfer_data, mul64, worksize,
}
use istgt.Disk.Io.Frame.{writes-frame}
use istgt.Disk.Io.Written.{IsCommand, lbread-lbwrite, lbwrite_ats_lem}
use istgt.Disk.Io.Same.{IsSameCommand, lbwrite_same_lem}
use istgt.Disk.Io.Memory.{memory, memory-IsMedium, memory-CanRead, memory-CanWrite}

abbrev contents : Buf → Buf
contents s = s

abbrev unit : IoDisk Buf
unit = record {
  medium = buf_of (10 ∷ 11 ∷ 12 ∷ 13 ∷ 14 ∷ 15 ∷ 16 ∷ 17 ∷ []);
  blockcnt = 4;
  blocklen = 2;
  readonly = false;
  queue_depth = 0;
  watssize = some 16;
  req_write_cache = true;
}

abbrev archive : IoDisk Buf
archive = record unit { readonly = true }

abbrev conn : IoConn
conn = record { worksize = some 5 }

abbrev empty_cmd : IoCmd
empty_cmd = record { iobuf = buf_of []; iobufsize = 16; data_buf = none; data_len = 0; sense = [] }

-- The initiator sends eight bytes.
abbrev sent : Transfer
sent b bufsize len = some (buf_of (12 ∷ 13 ∷ 14 ∷ 15 ∷ 1 ∷ 2 ∷ 3 ∷ 4 ∷ []))

abbrev sent_cmd : IoCmd
sent_cmd = record empty_cmd { iobuf = buf_of (12 ∷ 13 ∷ 14 ∷ 15 ∷ 1 ∷ 2 ∷ 3 ∷ 4 ∷ []) }

two_blocks : IsCommand unit empty_cmd 1 2
two_blocks = record {
  sized = omega arith;
  some_blocks = omega arith;
  starts = omega arith;
  ends = omega arith;
  has_room = omega arith;
}

received : transfer_data sent unit empty_cmd 4 ≡ some sent_cmd
unfolding transfer_data
received = refl

received_twice : transfer_data sent unit empty_cmd (mul64 4 2) ≡ some sent_cmd
unfolding transfer_data mul64
received_twice = refl

received_block : transfer_data sent unit empty_cmd 2 ≡ some sent_cmd
unfolding transfer_data
received_block = refl

work_room : (2 ≤ worksize conn.worksize) × (4 ≤ worksize unit.watssize)
unfolding worksize
work_room = (omega arith, omega arith)

to_the_end : IsSameCommand unit conn empty_cmd 1 0
to_the_end = record {
  sized = omega arith;
  starts = omega arith;
  ends = omega arith;
  has_block = omega arith;
  has_room = omega arith;
  work_room = work_room.0;
}

writes-frame_example :
    ((lbwrite (memory 8) sent unit conn empty_cmd 1 2).spec.medium 6 ≡ unit.medium 6)
    × ((lbwrite_same (memory 8) sent unit conn empty_cmd 1 2).spec.medium 6 ≡ unit.medium 6)
    × ((lbwrite_ats (memory 8) sent unit conn empty_cmd 1 2).spec.medium 6 ≡ unit.medium 6)
writes-frame_example =
    writes-frame (memory 8) contents (memory-IsMedium 8) sent unit conn empty_cmd 1 2 6
      (omega arith) (inr (inl (omega arith)))

lbread-lbwrite_example :
    let r =
      lbread (memory 8) (lbwrite (memory 8) sent unit conn empty_cmd 1 2).spec conn empty_cmd 1 2 in
    (r.rc ≡ ret 0)
    × (r.cmd.data_buf ≡ some r.cmd.iobuf)
    × (r.cmd.data_len ≡ 4)
    × (slice r.cmd.iobuf 0 4 ≡ slice sent_cmd.iobuf 0 4)
lbread-lbwrite_example =
    lbread-lbwrite (memory 8) contents (memory-IsMedium 8) sent unit conn empty_cmd sent_cmd
      empty_cmd 1 2 (memory-CanRead 8) (memory-CanWrite 8) two_blocks (omega arith) refl received

lbwrite_ats_lem_example :
    let r = lbwrite_ats (memory 8) sent unit conn empty_cmd 1 2 in
    ((slice unit.medium 2 4 ≡ slice sent_cmd.iobuf 0 4)
      × (r.rc ≡ ret 0)
      × (slice r.spec.medium 2 4 ≡ slice sent_cmd.iobuf 4 4))
    ⊎ ((slice unit.medium 2 4 ≢ slice sent_cmd.iobuf 0 4)
        × (r.rc ≡ fail)
        × (r.cmd.sense ≡ build_sense_data miscompare 0x1d 0x00)
        × (r.spec.medium ≡ unit.medium))
lbwrite_ats_lem_example =
    lbwrite_ats_lem (memory 8) contents (memory-IsMedium 8) sent unit conn empty_cmd sent_cmd 1 2
      (memory-CanRead 8) (memory-CanWrite 8) two_blocks refl work_room.1 received_twice

lbwrite_same_lem_example :
    let r = lbwrite_same (memory 8) sent unit conn empty_cmd 1 0 in
    (r.rc ≡ ret 0) × (slice r.spec.medium 2 6 ≡ copies 3 (slice sent_cmd.iobuf 0 2))
lbwrite_same_lem_example =
    lbwrite_same_lem (memory 8) contents (memory-IsMedium 8) sent unit conn empty_cmd sent_cmd 1 0
      (memory-CanWrite 8) to_the_end refl received_block
