-- ===== src/Stm/Tests.antt =====
-- skynet/lualib-src/lua-stm.c: an object through its life.
use skynet_athena.Stm.Holders.{
  Reach, Shared, copy_out, grab, new, next, perform, release, shared_new,
}
use skynet_athena.Base.{Option, arith, false, none, refl, some, true, update, ℕ, ◌≡◌}
use skynet_athena.Stm.{
  StmCopy, Store, copy_at, dec_copy, dec_object, grab_at, releasecopy_at, stm_copy, stm_grab,
  stm_new, stm_newcopy, stm_release, stm_releasereader, stm_update, ◌>>=◌,
}
use skynet_athena.Stm.Race.{leave_together, leave_together_fault}
use skynet_athena.Stm.Safety.{all_freed, no_fault, stm_copy-stm_update}

abbrev one_copy : ℕ → StmCopy
one_copy n = record { reference = n; sz = 3; msg = 7 }

abbrev at_zero : Option StmCopy → ℕ → Option StmCopy
at_zero c = update (λ k. none) 0 c

-- The writer has handed out a reader.
abbrev grabbed : Shared
grabbed = record {
  store = record {
    object = some (record { reference = 2; copy = some 0 });
    copies = at_zero (some (one_copy 1));
    fresh = 1;
  };
  holders = record { writer = true; readers = 1; held = λ k. 0; leaving = 0 };
}

grabbed-Reach : Reach grabbed
unfolding perform shared_new stm_new stm_newcopy stm_grab
grabbed-Reach = next grab (new 7 3) refl refl

-- The reader has taken the copy.
abbrev copied : Shared
copied = record {
  store = record {
    object = some (record { reference = 2; copy = some 0 });
    copies = update (at_zero (some (one_copy 1))) 0 (some (one_copy 2));
    fresh = 1;
  };
  holders = record { writer = true; readers = 1; held = update (λ k. 0) 0 1; leaving = 0 };
}

copied-Reach : Reach copied
unfolding perform stm_copy copy_at grab_at
copied-Reach = next copy_out grabbed-Reach (omega arith) refl

no_fault_example : (w' : Shared) × (perform release copied ≡ some w')
no_fault_example = no_fault release copied-Reach (refl, refl)

stm_copy-stm_update_example :
    (s s' : Store) × (k : ℕ) × (c : StmCopy) × (stm_update copied.store 9 5 ≡ some s)
    × (stm_copy s ≡ some (some k, s'))
    × (s'.copies k ≡ some c)
    × (c.msg ≡ 9)
    × (c.sz ≡ 5)
stm_copy-stm_update_example = stm_copy-stm_update 9 5 copied-Reach refl

-- A new object that its writer has left at once.
abbrev released : Shared
released = record {
  store = record { object = none; copies = update (at_zero (some (one_copy 1))) 0 none; fresh = 1 };
  holders = record { writer = false; readers = 0; held = λ k. 0; leaving = 0 };
}

released-Reach : Reach released
unfolding perform shared_new stm_new stm_newcopy stm_release releasecopy_at dec_copy dec_object
released-Reach = next release (new 7 3) (refl, refl) refl

all_freed_example : (released.store.object ≡ none) × ((k : ℕ) → released.store.copies k ≡ none)
all_freed_example = all_freed released-Reach refl refl λ k. refl

-- Two readers are left, and the writer is gone.
abbrev two_left : Shared
two_left = record {
  store = record {
    object = some (record { reference = 2; copy = none });
    copies = update (at_zero (some (one_copy 1))) 0 none;
    fresh = 1;
  };
  holders = record { writer = false; readers = 2; held = λ k. 0; leaving = 0 };
}

abbrev two_grabbed : Shared
two_grabbed = record {
  store = record {
    object = some (record { reference = 3; copy = some 0 });
    copies = at_zero (some (one_copy 1));
    fresh = 1;
  };
  holders = record { writer = true; readers = 2; held = λ k. 0; leaving = 0 };
}

two_grabbed-Reach : Reach two_grabbed
unfolding perform stm_grab
two_grabbed-Reach = next grab grabbed-Reach refl refl

two_left-Reach : Reach two_left
unfolding perform stm_release releasecopy_at dec_copy dec_object
two_left-Reach = next release two_grabbed-Reach (refl, refl) refl

leave_together_fault_example :
    (leave_together two_left.store ≡ none)
    × ((stm_releasereader two_left.store >>= stm_releasereader)
        ≡ some (record two_left.store { object = none }))
leave_together_fault_example = leave_together_fault two_left-Reach refl refl
