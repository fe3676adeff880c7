-- ===== src/Disk/Io/Memory.antt =====
-- A back end of `limit` bytes in memory. What does not fit is refused.
use istgt.Prelude.{
  refl, ℕ, ◌+◌, ◌-◌, ap, List, true, ◌&&◌, none, some, if◌then◌else◌, arith, length, leb, ltb,
}
use native.Mathlib.Nat.{add-sub_cancel_left}
use istgt.Misc.Bytes.{Buf, buf_of}
use istgt.Disk.Io.{Backend, IsMedium, slice}
use istgt.Disk.Io.Buffers.{length-slice}
use istgt.Disk.Io.Written.{CanRead, CanWrite}

abbrev patched : Buf → List ℕ → ℕ → Buf
patched s bytes offset i =
    if leb offset i && ltb i (offset + length bytes) then buf_of bytes (i - offset) else s i

abbrev pub memory : ℕ → Backend Buf
memory limit = record {
  pread = λ s n offset. if leb (offset + n) limit then some (slice s offset n) else none;
  pwrite = λ s bytes offset.
      if leb (offset + length bytes) limit
      then (patched s bytes offset, some (length bytes))
      else (s, none);
  sync = λ s n offset. (s, true);
}

pub memory-IsMedium : (limit : ℕ) → IsMedium (memory limit) (λ s. s)
memory-IsMedium limit = record {
  pread_length = λ s n offset bytes h. ground (arith, length-slice s offset n);
  pread_sound = λ s n offset bytes h. ground (arith, length-slice s offset n);
  pwrite_frame = λ s bytes offset i h. ground arith;
  pwrite_sound =
      λ s bytes offset i h k. ground (arith, ap (buf_of bytes) (add-sub_cancel_left offset i));
  sync_frame = λ s n offset i. refl;
}

pub memory-CanRead : (limit : ℕ) → CanRead (memory limit) (λ s. s) limit
memory-CanRead limit s n offset h = ground arith

pub memory-CanWrite : (limit : ℕ) → CanWrite (memory limit) limit
memory-CanWrite limit s bytes offset h = ground arith
