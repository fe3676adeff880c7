-- ===== src/Disk/Pr/Legacy/Laws.antt =====
-- The key of an initiator, and what RESERVE does by it (src/istgt/istgt_lu_disk.c).
use istgt.Prelude.{
  ℕ, ◌+◌, ◌*◌, ◌%◌, ◌^◌, ◌<◌, List, [], ◌∷◌, true, false, some, Name, ◌≡◌, ◌≢◌, refl, arith,
  IsLower, sym, drop, length, ◌∙◌, ap, subst,
}
use istgt.Misc.Bytes.{buf_of, dget64, dset64}
use istgt.Disk.Types.{LuDisk, Conn, LuCmd, ret, Pthread}
use istgt.Disk.Pr.Keys.{find_pr_key}
use istgt.Disk.Pr.Params.{Params, read_params, establish, is_supported_type}
use istgt.Disk.Types.{max_lu_reserve}
use istgt.Disk.Pr.Register.{new_key, register_ignore}
use istgt.Disk.Pr.Register.Laws.{register_ignore_room}
use istgt.Disk.Pr.Register.Nexus.{register_ignore-Registered}
use istgt.Disk.Pr.Reserve.{reserve}
use istgt.Disk.Pr.Reserve.Exclusion.{holds_key, reserve_ok, reserve-admits}
use istgt.Disk.Pr.Check.{allow_read, allow_write, admits}
use istgt.Disk.Pr.Out.{persistent_reserve_out, dispatch, action_of}
use istgt.Disk.Pr.Legacy.{Identity, rkey_step, get_rkey, pro_data, nested, finish, scsi_reserve}

rkey_step-low :
    (rkey : ℕ) (bytes : List ℕ)
    → rkey % 256 ≡ 0
    → rkey < 2 ^ 64
    → (rkey_step rkey bytes % 256 ≡ 0) × (rkey_step rkey bytes < 2 ^ 64)
unfolding rkey_step
rkey_step-low rkey [] h b = (h, b)
rkey_step-low rkey (x ∷ bytes) h b =
    rkey_step-low ((rkey + x) * 2 ^ 8 % 2 ^ 64) bytes (omega arith) (omega arith)

-- Whatever the digest, the key of an initiator is a 64-bit number whose lowest byte is 0: the last
-- shift of the loop loses a byte of the digest.
pub get_rkey_low :
    (ids : Identity) (initiator_name : Name)
    → (get_rkey ids initiator_name % 256 ≡ 0) × (get_rkey ids initiator_name < 2 ^ 64)
unfolding get_rkey
get_rkey_low ids initiator_name =
    rkey_step-low 0 (drop 8 (ids.digest initiator_name ids.lui)) refl (omega arith)

-- A nested command has the keys that it was made of, and no flag.
pub nested_params :
    (rsv_type rkey sarkey : ℕ)
    → rkey < 2 ^ 64
    → sarkey < 2 ^ 64
    → let p = read_params 0 rsv_type (buf_of (pro_data rkey sarkey)) 24 in
      (p.rkey ≡ rkey)
      × (p.sarkey ≡ sarkey)
      × (p.spec_i_pt ≡ false)
      × (p.all_tg_pt ≡ false)
      × (p.aptpl ≡ false)
unfolding read_params pro_data dset64 dget64 buf_of
nested_params rsv_type rkey sarkey h k = (omega arith, omega arith, refl, refl, refl)

-- Its scope is the logical unit, and its type is the one given.
nested_scope :
    (rsv_type rkey sarkey : ℕ)
    → let p = read_params 0 rsv_type (buf_of (pro_data rkey sarkey)) 24 in
      (p.scope ≡ 0) × (p.rsv_type ≡ rsv_type)
unfolding read_params
nested_scope rsv_type rkey sarkey = (refl, refl)

module _ (os : Pthread) (ids : Identity) (spec : LuDisk) (conn : Conn) (cmd : LuCmd) where
  -- The key of the connection's initiator, and the parameter lists of the two nested commands.
  abbrev pub key : ℕ
  key = get_rkey ids conn.initiator_name

  abbrev pub register_list : Params
  register_list = read_params 0 0 (buf_of (pro_data 0 key)) 24

  abbrev pub reserve_list : Params
  reserve_list = read_params 0 0x03 (buf_of (pro_data key 0)) 24

  abbrev pub blank : LuCmd
  blank = record { status = 0; sense = [] }

  abbrev pub registered : LuDisk
  registered = (register_ignore spec conn blank register_list).spec

  nested-reserve :
      (s : LuDisk) → nested os s conn 0x01 0x03 key 0 ≡ reserve s conn blank reserve_list
  unfolding nested persistent_reserve_out dispatch action_of
  nested-reserve s = refl

  nested-register : nested os spec conn 0x06 0 0 key ≡ register_ignore spec conn blank register_list
  unfolding nested persistent_reserve_out dispatch action_of
  nested-register = refl

  module _ (li : IsLower conn.initiator_port) (lt : IsLower conn.target_port)
      (room : length spec.pr_keys < max_lu_reserve) (free : spec.rsv_key ≡ 0) (ne : key ≢ 0) where
    register_list_lem :
        (register_list.rkey ≡ 0)
        × (register_list.sarkey ≡ key)
        × (register_list.spec_i_pt ≡ false)
        × (register_list.all_tg_pt ≡ false)
        × (register_list.aptpl ≡ false)
    register_list_lem = nested_params 0 0 key (omega arith) (get_rkey_low ids conn.initiator_name).1

    register_succeeds :
        ((register_ignore spec conn blank register_list).rc ≡ ret 0)
        × (registered.rsv_key ≡ 0)
        × (find_pr_key registered (some conn.initiator_port) (some conn.target_port) 0
            ≡ some (new_key conn register_list []))
        × (find_pr_key registered (some conn.initiator_port) (some conn.target_port) key
            ≡ some (new_key conn register_list []))
    register_succeeds =
        let (r, s, i, _, a) = register_list_lem in
        let ne' : register_list.sarkey ≢ 0 = rw s ne in
        let (ok, same, _) = register_ignore_room conn blank register_list spec room i a ne' r in
        let (found, _) = register_ignore-Registered conn blank register_list spec li lt i ne' ok in
        (
          ok,
          same ∙ free,
          found.found,
          subst
              (λ q.
                find_pr_key registered (some conn.initiator_port) (some conn.target_port) q
                ≡ some (new_key conn register_list []))
              s found.found_by_key,
        )

    reserve_succeeds :
        ((reserve registered conn blank reserve_list).rc ≡ ret 0)
        × ((reserve registered conn blank reserve_list).spec
            ≡ establish registered conn reserve_list)
    reserve_succeeds =
        let (_, unreserved, found, by_key) = register_succeeds in
        let (r, _, _, _, _) =
          nested_params 3 key 0 (get_rkey_low ids conn.initiator_name).1 (omega arith) in
        let by_list : find_pr_key registered (some conn.initiator_port) (some conn.target_port)
              reserve_list.rkey
            ≡ some (new_key conn register_list []) =
          subst
            (λ q.
              find_pr_key registered (some conn.initiator_port) (some conn.target_port) q
              ≡ some (new_key conn register_list []))
            (sym r) by_key in
        let (scope, kind) = nested_scope 3 key 0 in
        let supported : is_supported_type reserve_list.rsv_type ≡ true =
          ap is_supported_type kind ∙ unfold is_supported_type in refl in
        let e =
          reserve_ok registered conn blank reserve_list unreserved found by_list scope supported in
        (ap (λ r. r.rc) e, ap (λ r. r.spec) e)

    -- A RESERVE on a unit that is not reserved and has room for a registration, from a connection
    -- whose port names are in lower case and whose initiator's key is not 0, succeeds, and the
    -- unit is then reserved with that key.
    pub scsi_reserve_lem :
        ((scsi_reserve os ids spec conn cmd).rc ≡ ret 0)
        × ((scsi_reserve os ids spec conn cmd).spec ≡ establish registered conn reserve_list)
    unfolding scsi_reserve finish
    scsi_reserve_lem =
        let (ok, _, _, _) = register_succeeds in
        let (ok2, e) = reserve_succeeds in
        (
          ground (arith, nested-register, nested-reserve registered),
          ground (arith, nested-register, nested-reserve registered),
        )

    -- Then every command of the connection that the check admits to a holder is admitted, and none
    -- that reads or writes from a nexus that is not registered with the same key.
    pub scsi_reserve-admits :
        (other : Conn)
        → let s = (scsi_reserve os ids spec conn cmd).spec in
          (admits s conn allow_read ≡ true)
          × (admits s conn allow_write ≡ true)
          × (admits s other allow_read ≡ holds_key registered other key)
          × (admits s other allow_write ≡ holds_key registered other key)
    unfolding holds_key new_key
    scsi_reserve-admits other =
        let (_, unreserved, found, _) = register_succeeds in
        let (ok, e) = reserve_succeeds in
        let (_, whole) = scsi_reserve_lem in
        let (r, _, _, _, _) =
          nested_params 3 key 0 (get_rkey_low ids conn.initiator_name).1 (omega arith) in
        let (_, sa, _, _, _) = register_list_lem in
        let mine =
          reserve-admits registered conn blank reserve_list conn unreserved (rw r ne)
            (nested_scope 3 key 0).1 ok in
        let theirs =
          reserve-admits registered conn blank reserve_list other unreserved (rw r ne)
            (nested_scope 3 key 0).1 ok in
        rw (whole ∙ sym e) (
          mine.0 ∙ ground (arith, found, r, sa),
          mine.1 ∙ ground (arith, found, r, sa),
          theirs.0 ∙ ap (holds_key registered other) r,
          theirs.1 ∙ ap (holds_key registered other) r,
        )
