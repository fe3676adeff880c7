-- ===== src/Disk/Io.antt =====
-- Block I/O of a unit (src/istgt/istgt_lu_disk.c): the fields that it uses of ISTGT_LU_DISK, CONN
-- and ISTGT_LU_CMD, and the interface of a back end, the function pointers `pread`, `pwrite` and
-- `sync` of ISTGT_LU_DISK. A back end keeps a state of its own, the medium.
pub mod Block
pub mod Buffers
pub mod Frame
pub mod Written
pub mod Same
pub mod Memory
mod Tests
use istgt.Prelude.{
  ℕ, ◌+◌, ◌≤◌, ◌<◌, ◌≡◌, ◌⊎◌, List, [], ◌∷◌, Bool, Option, none, some, length, zero, suc,
}
use istgt.Misc.Bytes.{Buf, buf_of}
use istgt.Disk.Types.{Rc}

-- `n` bytes of a buffer from an offset on.
unfoldable pub slice : Buf → (offset n : ℕ) → List ℕ
slice b offset zero = []
slice b offset (suc n) = b offset ∷ slice b (suc offset) n

-- What the function pointers do. `pread` answers the bytes that it read, `pwrite` how many of the
-- bytes it wrote, `sync` whether it worked; `none` is a negative result.
pub record Backend {ℓ} (σ : Type ℓ) : Type ℓ where
  pub pread : σ → (nbytes offset : ℕ) → Option (List ℕ)
  pub pwrite : σ → List ℕ → (offset : ℕ) → σ × Option ℕ
  pub sync : σ → (nbytes offset : ℕ) → σ × Bool

-- What a caller may rely on: `contents` is the medium as the bytes at its offsets.
pub record IsMedium {ℓ} {σ : Type ℓ} (b : Backend σ) (contents : σ → Buf) : Type ℓ where
  pub pread_length :
      (s : σ) (n offset : ℕ) (bytes : List ℕ) → b.pread s n offset ≡ some bytes → length bytes ≤ n
  pub pread_sound :
      (s : σ) (n offset : ℕ) (bytes : List ℕ)
      → b.pread s n offset ≡ some bytes
      → bytes ≡ slice (contents s) offset (length bytes)
  pub pwrite_frame :
      (s : σ) (bytes : List ℕ) (offset i : ℕ)
      → (i < offset) ⊎ (offset + length bytes ≤ i)
      → contents (b.pwrite s bytes offset).0 i ≡ contents s i
  pub pwrite_sound :
      (s : σ) (bytes : List ℕ) (offset i : ℕ)
      → (b.pwrite s bytes offset).1 ≡ some (length bytes)
      → i < length bytes
      → contents (b.pwrite s bytes offset).0 (offset + i) ≡ buf_of bytes i
  pub sync_frame : (s : σ) (n offset i : ℕ) → contents (b.sync s n offset).0 i ≡ contents s i

-- ISTGT_LU_DISK and the unit it belongs to. `watssize` is `none` while `watsbuf` is NULL.
pub record IoDisk {ℓ} (σ : Type ℓ) : Type ℓ where
  pub medium : σ
  pub blockcnt : ℕ
  pub blocklen : ℕ
  pub readonly : Bool
  pub queue_depth : ℕ
  pub watssize : Option ℕ
  pub req_write_cache : Bool

-- CONN. `worksize` is `none` while `workbuf` is NULL.
pub record IoConn : Type 0 where
  pub worksize : Option ℕ

-- ISTGT_LU_CMD. `data_buf`, the field `data`, is `none` for NULL, and else what the pointer shows.
pub record IoCmd : Type 0 where
  pub iobuf : Buf
  pub iobufsize : ℕ
  pub data_buf : Option Buf
  pub data_len : ℕ
  pub sense : List ℕ

-- istgt_iscsi_transfer_out: from the buffer, its size and a length, the buffer with the data that
-- the initiator sent, or `none` for a negative result.
abbrev pub Transfer : Type 0
Transfer = Buf → (bufsize len : ℕ) → Option Buf

pub record IoReply {ℓ} (σ : Type ℓ) : Type ℓ where
  pub spec : IoDisk σ
  pub conn : IoConn
  pub cmd : IoCmd
  pub rc : Rc
