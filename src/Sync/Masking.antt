-- ===== src/Sync/Masking.antt =====
-- tg-rcore-tutorial-sync/src/up.rs: `IntrMaskingInfo` and the sessions of `UPIntrFreeCell`. The
-- state of the hart is the bit sstatus.SIE with the masking information; the `RefCell` inside a
-- cell is a flag that says whether it is borrowed.
pub mod Nesting
use tg_rcore_tutorial.Prelude.{
  ℕ, ◌+◌, ◌-◌, ◌%◌, ◌^◌, ◌==◌, ◌&&◌, if◌then◌else◌, not, Bool, true, false, Outcome, ok, ◌>>=◌,
  ◌>>◌, assert,
}

pub record Hart : Type 0 where
  pub sie : Bool
  pub nested_level : ℕ
  pub sie_before_masking : Bool

unfoldable pub new : Bool → Hart
new sie = record { sie = sie; nested_level = 0; sie_before_masking = false }

unfoldable pub enter : Hart → Hart
enter h = record {
  sie = false;
  nested_level = (h.nested_level + 1) % 2 ^ 64;
  sie_before_masking = if h.nested_level == 0 then h.sie else h.sie_before_masking;
}

unfoldable pub exit : Hart → Hart
exit h =
    let level = (h.nested_level + (2 ^ 64 - 1)) % 2 ^ 64 in
    record h {
      sie = if level == 0 && h.sie_before_masking then true else h.sie;
      nested_level = level;
    }

pub record Cell {ℓ} (T : Type ℓ) : Type ℓ where
  pub value : T
  pub borrowed : Bool

module _ {ℓ} {T : Type ℓ} where
  -- `borrow_mut` panics if the cell is borrowed.
  unfoldable pub exclusive_access : Hart → Cell T → Outcome (Hart × Cell T)
  exclusive_access h c = do
    let h' = enter h
    assert (not c.borrowed)
    ok (h', record c { borrowed = true })

  -- The drop of `UPIntrRefMut`.
  unfoldable pub release : Hart → Cell T → Hart × Cell T
  release h c = (exit h, record c { borrowed = false })

  -- `exclusive_session`: the closure runs with the hart as the access left it, and gives the
  -- hart, the new value and its result.
  unfoldable pub exclusive_session {κ} :
      {V : Type κ}
      → (Hart → T → Outcome (Hart × T × V))
      → Hart
      → Cell T
      → Outcome (Hart × Cell T × V)
  exclusive_session f h c = do
    (h1, c1) ← exclusive_access h c
    (h2, v, out) ← f h1 c1.value
    let (h3, c3) = release h2 (record c1 { value = v })
    ok (h3, c3, out)
