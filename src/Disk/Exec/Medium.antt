-- ===== src/Disk/Exec/Medium.antt =====
-- What the commands of a unit leave of its medium (src/istgt/istgt_lu_disk.c).
use istgt.Prelude.{ℕ, ◌-◌, Bool, true, false, ◌≡◌, ◌⊎◌, ap, arith, if◌then◌else◌, ◌==◌, ltb, ◌&&◌}
use istgt.Misc.Bytes.{Buf}
use istgt.Disk.Io.{Backend, IsMedium, IoDisk, IoConn, IoCmd, Transfer}
use istgt.Disk.Io.Block.{
  lbread, lbwrite, lbwrite_same, lbwrite_ats, lbsync, mul64, write_out, same_out, test_and_set,
  ats_out,
}
use istgt.Disk.Io.Frame.{refused-unchanged}

-- Two states of the blocks of a unit: the same geometry, and, where nothing may be written or the unit is read-only, the
-- same bytes.
pub record Keeps {σ : Type 0} (contents : σ → Buf) (may_write : Bool) (u v : IoDisk σ)
    : Type 0 where
  pub blockcnt_same : v.blockcnt ≡ u.blockcnt
  pub blocklen_same : v.blocklen ≡ u.blocklen
  pub readonly_same : v.readonly ≡ u.readonly
  pub unwritten :
      (may_write ≡ false) ⊎ (u.readonly ≡ true)
      → (i : ℕ) → contents v.medium i ≡ contents u.medium i

module _ {σ : Type 0} (b : Backend σ) (contents : σ → Buf) where
  pub same-Keeps : (w : Bool) (u v : IoDisk σ) → v ≡ u → Keeps contents w u v
  same-Keeps w u v e = record {
    blockcnt_same = ap (λ d. d.blockcnt) e;
    blocklen_same = ap (λ d. d.blocklen) e;
    readonly_same = ap (λ d. d.readonly) e;
    unwritten = λ h i. ap (λ d. contents d.medium i) e;
  }

  pub lbread-Keeps :
      (u : IoDisk σ) (conn : IoConn) (cmd : IoCmd) (lba len : ℕ)
      → Keeps contents false u (lbread b u conn cmd lba len).spec
  unfolding lbread
  lbread-Keeps u conn cmd lba len = same-Keeps _ _ _ (ground arith)

  pub lbsync-Keeps :
      IsMedium b contents
      → (u : IoDisk σ) (conn : IoConn) (cmd : IoCmd) (lba len : ℕ)
      → Keeps contents false u (lbsync b u conn cmd lba len).spec
  unfolding lbsync mul64
  lbsync-Keeps law u conn cmd lba len =
      let llen = if len == 0 && ltb lba u.blockcnt then u.blockcnt - lba else len in
      let frame : (i : ℕ)
          → contents (b.sync u.medium (mul64 llen u.blocklen) (mul64 lba u.blocklen)).0 i
            ≡ contents u.medium i =
        law.sync_frame _ _ _ in
      record {
        blockcnt_same = ground arith;
        blocklen_same = ground arith;
        readonly_same = ground arith;
        unwritten = λ h i. ground (arith, frame i);
      }

  module _ (transfer : Transfer) (u : IoDisk σ) (conn : IoConn) (cmd : IoCmd) (lba len : ℕ) where
    pub lbwrite-Keeps : Keeps contents true u (lbwrite b transfer u conn cmd lba len).spec
    unfolding lbwrite write_out
    lbwrite-Keeps = record {
      blockcnt_same = ground arith;
      blocklen_same = ground arith;
      readonly_same = ground arith;
      unwritten = λ h i.
          ap (λ s. contents s i) (refused-unchanged b transfer u conn cmd lba len (ground arith)).0;
    }

    pub lbwrite_same-Keeps : Keeps contents true u (lbwrite_same b transfer u conn cmd lba len).spec
    unfolding lbwrite_same same_out
    lbwrite_same-Keeps = record {
      blockcnt_same = ground arith;
      blocklen_same = ground arith;
      readonly_same = ground arith;
      unwritten = λ h i.
          ap (λ s. contents s i) (refused-unchanged b transfer u conn cmd lba len (ground arith)).1;
    }

    pub lbwrite_ats-Keeps : Keeps contents true u (lbwrite_ats b transfer u conn cmd lba len).spec
    unfolding lbwrite_ats ats_out test_and_set write_out
    lbwrite_ats-Keeps = record {
      blockcnt_same = ground arith;
      blocklen_same = ground arith;
      readonly_same = ground arith;
      unwritten = λ h i.
          ap (λ s. contents s i) (refused-unchanged b transfer u conn cmd lba len (ground arith)).2;
    }
