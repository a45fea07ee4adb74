-- ===== src/Mips/Retire.antt =====
-- How an instruction ends: the delayed load, and the program counters or the exception.
use project.Prelude.{
  ℕ, ◌≤◌, ◌<◌, ◌≡◌, refl, ◌∙◌, ◌⊎◌, inl, inr, arith, ok, Returns, Returns->>=, lt→ltb,
}
use project.Machine.{Machine, ExceptionType}
use project.Machine.Valid.{IsValid}
use project.Mips.Cpu.{reg, put, Effect, proceeds, raises, load_reg, load_value_reg, bad_vaddr_reg}
use project.Machine.{pc_reg, next_pc_reg, prev_pc_reg}
use project.Mips.Steps.{Keeps, IsEffect, put-IsValid, put_self, put_other}
use project.Mips.Execute.{
  delayed_load, Outcome, completed, trapped, raise_exception, advance, finish,
}

-- Between two instructions: R0 is zero, and a delayed load aims at one of the 32 registers.
pub record IsReady (m : Machine) : Type 0 where
  pub valid : IsValid m
  pub zero_reg : reg m 0 ≡ 0
  pub target : reg m load_reg < 32

-- What an instruction may come to. A trapped one has left the program counters where they were,
-- with no load under way, so that it can be run again.
abbrev pub Sound : Machine → Outcome → Type 0
Sound m (completed m') =
    IsReady m' × (reg m' pc_reg ≡ reg m next_pc_reg) × (reg m' prev_pc_reg ≡ reg m pc_reg)
Sound m (trapped e m') =
    IsReady m'
    × (reg m' pc_reg ≡ reg m pc_reg)
    × (reg m' next_pc_reg ≡ reg m next_pc_reg)
    × (reg m' load_reg ≡ 0)

-- After a delayed load.
pub record Delayed (m : Machine) (r v : ℕ) (m' : Machine) : Type 0 where
  pub valid : IsValid m'
  pub zero_reg : reg m' 0 ≡ 0
  pub target : reg m' load_reg ≡ r
  pub next_value : reg m' load_value_reg ≡ v
  pub arrived : 1 ≤ reg m load_reg → reg m' (reg m load_reg) ≡ reg m load_value_reg
  pub counters : (j : ℕ) → 34 ≤ j → j ≤ 36 → reg m' j ≡ reg m j

pub delayed_load-Delayed :
    (m : Machine) (r v : ℕ)
    → IsValid m
    → reg m load_reg < 32
    → Returns (Delayed m r v) (delayed_load m r v)
unfolding delayed_load
delayed_load-Delayed m r v k h =
    let m1 = put m (reg m load_reg) (reg m load_value_reg) in
    let m2 = put m1 load_reg r in
    let m3 = put m2 load_value_reg v in
    let k1 = put-IsValid m (reg m load_reg) (reg m load_value_reg) k in
    let k2 = put-IsValid m1 load_reg r k1 in
    let k3 = put-IsValid m2 load_value_reg v k2 in
    record {
      out = put m3 0 0;
      is_out = rw (lt→ltb (reg m load_reg) 40 (omega arith)) refl;
      holds = record {
        valid = put-IsValid m3 0 0 k3;
        zero_reg = put_self m3 0 0 k3 (omega arith);
        target =
            put_other m3 0 37 0 (omega arith)
            ∙ put_other m2 38 37 v (omega arith)
            ∙ put_self m1 37 r k1 (omega arith);
        next_value = put_other m3 0 38 0 (omega arith) ∙ put_self m2 38 v k2 (omega arith);
        arrived = λ some_reg.
            let to = reg m load_reg in
            put_other m3 0 to 0 (omega (arith, some_reg))
            ∙ put_other m2 38 to v (omega (arith, h))
            ∙ put_other m1 37 to r (omega (arith, h))
            ∙ put_self m to (reg m load_value_reg) k (omega (arith, h));
        counters = λ j a b.
            put_other m3 0 j 0 (λ e. absurd (omega arith))
            ∙ put_other m2 38 j v (λ e. absurd (omega arith))
            ∙ put_other m1 37 j r (λ e. absurd (omega arith))
            ∙ put_other m (reg m load_reg) j (reg m load_value_reg) (λ e. absurd (omega arith));
      };
    }

-- A delayed load within the general registers returns.
pub delayed_load-ok :
    (m : Machine) (r v : ℕ) → IsReady m → (m' : Machine) × (delayed_load m r v ≡ ok m')
delayed_load-ok m r v h = let d = delayed_load-Delayed m r v h.valid h.target in (d.out, d.is_out)

pub raise_exception-Sound :
    (m m' : Machine) (e : ExceptionType) (addr : ℕ)
    → IsReady m
    → Keeps m m'
    → Returns (Sound m) (raise_exception m' e addr)
unfolding raise_exception
raise_exception-Sound m m' e addr h k =
    let b = put m' bad_vaddr_reg addr in
    let same : (j : ℕ) → 34 ≤ j → j ≤ 37 → reg b j ≡ reg m j =
      λ j a c. put_other m' 39 j addr (λ e. absurd (omega arith)) ∙ k.same j a in
    Returns->>= (Delayed b 0 0) (Sound m) (delayed_load b 0 0) _
      (delayed_load-Delayed b 0 0 (put-IsValid m' bad_vaddr_reg addr k.valid)
        (omega (arith, same 37 (omega arith) (omega arith), h.target)))
      (λ last d. record {
        out = trapped e last;
        is_out = refl;
        holds = (
          record { valid = d.valid; zero_reg = d.zero_reg; target = omega (arith, d.target) },
          d.counters 34 (omega arith) (omega arith) ∙ same 34 (omega arith) (omega arith),
          d.counters 35 (omega arith) (omega arith) ∙ same 35 (omega arith) (omega arith),
          d.target,
        );
      })

pub advance-Sound :
    (m m' last : Machine) (pc r v : ℕ)
    → r < 32
    → Keeps m m'
    → Delayed m' r v last
    → Sound m (completed (advance last pc))
advance-Sound m m' last pc r v h k d =
    let m1 = put last prev_pc_reg (reg last pc_reg) in
    let m2 = put m1 pc_reg (reg m1 next_pc_reg) in
    let k1 = put-IsValid last prev_pc_reg (reg last pc_reg) d.valid in
    let k2 = put-IsValid m1 pc_reg (reg m1 next_pc_reg) k1 in
    let other : (j : ℕ) → (j ≡ 0) ⊎ (36 < j) → reg (advance last pc) j ≡ reg last j = λ j a.
      put_other m2 35 j pc (λ e. absurd (omega arith))
      ∙ put_other m1 34 j (reg m1 next_pc_reg) (λ e. absurd (omega arith))
      ∙ put_other last 36 j (reg last pc_reg) (λ e. absurd (omega arith)) in
    (
      record {
        valid = put-IsValid m2 next_pc_reg pc k2;
        zero_reg = other 0 (inl refl) ∙ d.zero_reg;
        target = omega (arith, other 37 (inr (omega arith)), d.target);
      },
      put_other m2 35 34 pc (omega arith)
          ∙ put_self m1 34 (reg m1 next_pc_reg) k1 (omega arith)
          ∙ put_other last 36 35 (reg last pc_reg) (omega arith)
          ∙ d.counters 35 (omega arith) (omega arith)
          ∙ k.same 35 (omega arith),
      put_other m2 35 36 pc (omega arith)
          ∙ put_other m1 34 36 (reg m1 next_pc_reg) (omega arith)
          ∙ put_self last 36 (reg last pc_reg) d.valid (omega arith)
          ∙ d.counters 34 (omega arith) (omega arith)
          ∙ k.same 34 (omega arith),
    )

pub finish-Sound :
    (m : Machine) (e : Effect) → IsReady m → IsEffect m e → Returns (Sound m) (finish e)
unfolding finish
finish-Sound m (raises m' e addr) h k = raise_exception-Sound m m' e addr h k
finish-Sound m (proceeds m' pc r v) h (k, l) =
    Returns->>= (Delayed m' r v) (Sound m) (delayed_load m' r v) _
      (delayed_load-Delayed m' r v k.valid (omega (arith, k.same 37 (omega arith), h.target)))
      (λ last d. record {
        out = completed (advance last pc);
        is_out = refl;
        holds = advance-Sound m m' last pc r v l k d;
      })
