-- ===== src/Disk/Pr/In/Decode.antt =====
-- What an initiator reads from the responses of PERSISTENT RESERVE IN, by their layout in SPC-3
-- (src/istgt/istgt_lu_disk.c).
use istgt.Prelude.{
  ℕ, zero, suc, ◌+◌, ◌*◌, ◌^◌, ◌<◌, ◌≤◌, List, [], ◌∷◌, ◌++◌, some, ◌≡◌, ◌≢◌, refl, ap, ◌∙◌, arith,
  length, map, All, length-append,
}
use istgt.Misc.Bytes.{
  Buf, at_offset, dget32, dget64, dset16, dset32, dset64, bget8w, bfield, buf_of,
}
use istgt.Misc.Bytes.RoundTrip.{dget32-dset32, dget64-dset64, buf_of-drop}
use istgt.Disk.Types.{PrKey, LuDisk, LuCmd}
use istgt.Disk.Pr.In.{key_list, with_header, read_keys, read_reservation, persistent_reserve_in}

-- `n` keys from an offset on.
pub decode_keys : ℕ → Buf → List ℕ
decode_keys zero b = []
decode_keys (suc n) b = dget64 b ∷ decode_keys n (at_offset b 8)

-- A key that a `uint64_t` holds.
abbrev pub FitsWord : PrKey → Type 0
FitsWord k = k.key < 2 ^ 64

length-key_list : (keys : List PrKey) → length (key_list keys) ≡ 8 * length keys
unfolding key_list
length-key_list [] = refl
length-key_list (k ∷ keys) =
    omega (arith, length-append (dset64 k.key) (key_list keys), length-key_list keys, eight k.key)
  where
    eight : (d : ℕ) → length (dset64 d) ≡ 8
    eight d = refl

decode_keys-key_list :
    (keys : List PrKey)
    → All FitsWord keys
    → decode_keys (length keys) (buf_of (key_list keys)) ≡ map (λ k. k.key) keys
unfolding decode_keys key_list
decode_keys-key_list [] h = refl
decode_keys-key_list (k ∷ keys) h = λ i.
    dget64-dset64 k.key (key_list keys) h.0 i
    ∷ (ap (decode_keys (length keys)) (rest k keys) ∙ decode_keys-key_list keys h.1) i
  where
    rest :
        (k : PrKey) (keys : List PrKey)
        → at_offset (buf_of (dset64 k.key ++ key_list keys)) 8 ≡ buf_of (key_list keys)
    rest k keys = buf_of-drop 8 (dset64 k.key ++ key_list keys) ∙ unfold dset64 in refl

header_generation :
    (spec : LuDisk) (body : List ℕ)
    → spec.pr_generation < 2 ^ 32
    → dget32 (buf_of (with_header spec body)) ≡ spec.pr_generation
unfolding with_header
header_generation spec body h = dget32-dset32 spec.pr_generation _ h

header_length :
    (spec : LuDisk) (body : List ℕ)
    → length body < 2 ^ 32
    → dget32 (at_offset (buf_of (with_header spec body)) 4) ≡ length body
unfolding with_header
header_length spec body h =
    ap dget32 (
      buf_of-drop 4 (dset32 spec.pr_generation ++ (dset32 (length body) ++ body))
      ∙ unfold dset32 in refl)
    ∙ dget32-dset32 (length body) body h

header_body :
    (spec : LuDisk) (body : List ℕ) → at_offset (buf_of (with_header spec body)) 8 ≡ buf_of body
unfolding with_header
header_body spec body =
    buf_of-drop 8 (dset32 spec.pr_generation ++ (dset32 (length body) ++ body))
    ∙ unfold dset32 in refl

header_total : (spec : LuDisk) (body : List ℕ) → length (with_header spec body) ≡ 8 + length body
unfolding with_header dset32
header_total spec body = omega arith

-- READ KEYS succeeds, and its response reads back as the generation, a length of eight bytes for
-- each registration, and the keys of all registrations in their order, for a generation that fits
-- 32 bits, keys that fit 64 bits and at most 256 registrations. Nothing stands behind the keys.
pub persistent_reserve_in-keys :
    (spec : LuDisk) (cmd : LuCmd)
    → spec.pr_generation < 2 ^ 32
    → All FitsWord spec.pr_keys
    → length spec.pr_keys ≤ 256
    → ((persistent_reserve_in spec cmd 0x00).0 ≡ some (read_keys spec))
      × (dget32 (buf_of (read_keys spec)) ≡ spec.pr_generation)
      × (dget32 (at_offset (buf_of (read_keys spec)) 4) ≡ 8 * length spec.pr_keys)
      × (decode_keys (length spec.pr_keys) (at_offset (buf_of (read_keys spec)) 8)
          ≡ map (λ k. k.key) spec.pr_keys)
      × (length (read_keys spec) ≡ 8 + 8 * length spec.pr_keys)
unfolding persistent_reserve_in read_keys
persistent_reserve_in-keys spec cmd g w b =
    let body = key_list spec.pr_keys in
    let n : length body ≡ 8 * length spec.pr_keys = length-key_list spec.pr_keys in
    (
      refl,
      header_generation spec body g,
      header_length spec body (omega arith) ∙ n,
      ap (decode_keys (length spec.pr_keys)) (header_body spec body)
          ∙ decode_keys-key_list spec.pr_keys w,
      omega (arith, header_total spec body),
    )

reads_generation :
    (spec : LuDisk)
    → spec.pr_generation < 2 ^ 32
    → dget32 (buf_of (read_reservation spec)) ≡ spec.pr_generation
unfolding read_reservation
reads_generation spec g = header_generation spec _ g

-- The body of the response of a reserved unit.
abbrev reserved_body : LuDisk → List ℕ
reserved_body spec =
    dset64 spec.rsv_key
    ++ (dset32 0 ++ (0 ∷ (bfield spec.rsv_scope 7 4 + bfield spec.rsv_type 3 4) ∷ dset16 0))

read_reservation_reserved :
    (spec : LuDisk)
    → spec.rsv_key ≢ 0
    → read_reservation spec ≡ with_header spec (reserved_body spec)
unfolding read_reservation
read_reservation_reserved spec h = ground arith

byte_21 :
    (spec : LuDisk)
    → buf_of (with_header spec (reserved_body spec)) 21
      ≡ bfield spec.rsv_scope 7 4 + bfield spec.rsv_type 3 4
unfolding with_header dset32 dset64 dset16 buf_of
byte_21 spec = refl

reads_reserved :
    (spec : LuDisk)
    → spec.rsv_key < 2 ^ 64
    → spec.rsv_scope < 16
    → spec.rsv_type < 16
    → spec.rsv_key ≢ 0
    → (length (read_reservation spec) ≡ 24)
      × (dget32 (at_offset (buf_of (read_reservation spec)) 4) ≡ 16)
      × (dget64 (at_offset (buf_of (read_reservation spec)) 8) ≡ spec.rsv_key)
      × (bget8w (buf_of (read_reservation spec) 21) 7 4 ≡ spec.rsv_scope)
      × (bget8w (buf_of (read_reservation spec) 21) 3 4 ≡ spec.rsv_type)
reads_reserved spec k s t h =
    rw (read_reservation_reserved spec h, byte_21 spec)
      (
        unfold with_header dset32 dset64 dset16 in refl,
        header_length spec (reserved_body spec) (unfold dset32 dset64 dset16 in omega arith)
            ∙ unfold dset32 dset64 dset16 in refl,
        ap dget64 (header_body spec (reserved_body spec)) ∙ dget64-dset64 spec.rsv_key _ k,
        unfold bfield bget8w in omega arith,
        unfold bfield bget8w in omega arith,
      )

reads_free :
    (spec : LuDisk)
    → spec.rsv_key ≡ 0
    → (length (read_reservation spec) ≡ 8)
      × (dget32 (at_offset (buf_of (read_reservation spec)) 4) ≡ 0)
reads_free spec h =
    let e : read_reservation spec ≡ with_header spec [] = unfold read_reservation in ground arith in
    rw e (unfold with_header dset32 in refl, header_length spec [] (omega arith))

-- READ RESERVATION of a reserved unit succeeds with a response of 24 bytes, which reads back as
-- the generation, an additional length of 16, the key of the reservation, and its scope and type
-- in the two halves of byte 21, for a key below 2 ^ 64 and a scope and type below 16.
pub persistent_reserve_in-reservation :
    (spec : LuDisk) (cmd : LuCmd)
    → spec.pr_generation < 2 ^ 32
    → spec.rsv_key < 2 ^ 64
    → spec.rsv_scope < 16
    → spec.rsv_type < 16
    → spec.rsv_key ≢ 0
    → ((persistent_reserve_in spec cmd 0x01).0 ≡ some (read_reservation spec))
      × (dget32 (buf_of (read_reservation spec)) ≡ spec.pr_generation)
      × (length (read_reservation spec) ≡ 24)
      × (dget32 (at_offset (buf_of (read_reservation spec)) 4) ≡ 16)
      × (dget64 (at_offset (buf_of (read_reservation spec)) 8) ≡ spec.rsv_key)
      × (bget8w (buf_of (read_reservation spec) 21) 7 4 ≡ spec.rsv_scope)
      × (bget8w (buf_of (read_reservation spec) 21) 3 4 ≡ spec.rsv_type)
unfolding persistent_reserve_in
persistent_reserve_in-reservation spec cmd g k s t h =
    let (len, rest_len, key, scope, kind) = reads_reserved spec k s t h in
    (refl, reads_generation spec g, len, rest_len, key, scope, kind)

-- READ RESERVATION of a unit that is not reserved is the header alone: the generation, and an
-- additional length of 0.
pub persistent_reserve_in-unreserved :
    (spec : LuDisk) (cmd : LuCmd)
    → spec.pr_generation < 2 ^ 32
    → spec.rsv_key ≡ 0
    → ((persistent_reserve_in spec cmd 0x01).0 ≡ some (read_reservation spec))
      × (dget32 (buf_of (read_reservation spec)) ≡ spec.pr_generation)
      × (length (read_reservation spec) ≡ 8)
      × (dget32 (at_offset (buf_of (read_reservation spec)) 4) ≡ 0)
unfolding persistent_reserve_in
persistent_reserve_in-unreserved spec cmd g h =
    let (len, rest_len) = reads_free spec h in (refl, reads_generation spec g, len, rest_len)
