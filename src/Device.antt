-- ===== src/Device.antt =====
-- src/block_device.rs: the trait `BlockDevice`, whose implementations are not in the repository. A
-- device is a parameter: a state and the two calls that the library makes. `read` is handed the
-- buffer, since it may leave anything there when it fails. `size` is called nowhere.
use exfat_slim.Base.{ℕ, List, false, ◌≡◌, refl, ◌==◌, if◌then◌else◌}
use exfat_slim.Error.{Result, ok, err, ExFatError}
use exfat_slim.Action.{Action, Ensures, returned, raised}

abbrev pub Block : Type 0
Block = List ℕ

-- `Result<(), Error>` of a device.
pub data Outcome (E : Type 0) : Type 0 where
  done : Outcome E
  failed : E → Outcome E

pub record BlockDevice : Type 1 where
  pub State : Type 0
  pub Error : Type 0
  pub read : ℕ → Block → State → Outcome Error × Block × State
  pub write : ℕ → Block → State → Outcome Error × State

-- A device call with `.map_err(ExFatError::Io)`. What a read leaves in the buffer is returned
-- beside the outcome, on failure too.
abbrev pub after_write : {E S : Type 0} → Outcome E × S → Result (ExFatError E) (Unit {0}) × S
after_write (done, s) = (ok tt, s)
after_write (failed e, s) = (err (ExFatError.io e), s)

abbrev pub write_block :
    (d : BlockDevice) → ℕ → Block → Action (ExFatError d.Error) d.State (Unit {0})
write_block d a b s = after_write (d.write a b s)

-- The documented behaviour of a device: blocks are kept. `contents` is what is stored. A failed
-- write may spoil the block that it was to write, and no other.
pub record Storage (d : BlockDevice) : Type 0 where
  pub contents : d.State → ℕ → Block
  pub read_ok :
      (a : ℕ) (b b' : Block) (s s' : d.State)
      → d.read a b s ≡ (done, b', s')
      → (b' ≡ contents s a) × ((x : ℕ) → contents s' x ≡ contents s x)
  pub read_err :
      (a : ℕ) (b b' : Block) (s s' : d.State) (e : d.Error)
      → d.read a b s ≡ (failed e, b', s')
      → (x : ℕ) → contents s' x ≡ contents s x
  pub write_ok :
      (a : ℕ) (b : Block) (s s' : d.State)
      → d.write a b s ≡ (done, s')
      → (x : ℕ) → contents s' x ≡ (if a == x then b else contents s x)
  pub write_err :
      (a : ℕ) (b : Block) (s s' : d.State) (e : d.Error)
      → d.write a b s ≡ (failed e, s')
      → (x : ℕ) → (a == x) ≡ false
      → contents s' x ≡ contents s x

module _ {d : BlockDevice} (st : Storage d) where
  open st use {contents, write_ok, write_err}

  -- The states that a write may leave.
  abbrev pub Written : ℕ → Block → d.State → d.State → Type 0
  Written a b s s' = (x : ℕ) → contents s' x ≡ (if a == x then b else contents s x)

  abbrev pub Spoiled : ℕ → d.State → d.State → Type 0
  Spoiled a s s' = (x : ℕ) → (a == x) ≡ false → contents s' x ≡ contents s x

  pub write_block-Ensures :
      (a : ℕ) (b : Block) (s : d.State)
      → Ensures (λ _ s'. Written a b s s') (Spoiled a s) (write_block d a b s)
  write_block-Ensures a b s = outcome (d.write a b s) refl
    where
      outcome :
          (r : Outcome d.Error × d.State)
          → d.write a b s ≡ r
          → Ensures (λ _ s'. Written a b s s') (Spoiled a s) (after_write r)
      outcome (done, s') e = returned (write_ok a b s s' e)
      outcome (failed x, s') e = raised (write_err a b s s' x e)
