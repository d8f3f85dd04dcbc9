-- ===== src/RefCounted.antt =====
-- source/io/Removable.cpp and RefCounted.cpp: an object that is deleted by the loop, in two phases,
-- once nothing refers to it.
pub mod Laws
mod Tests
use tarm_io.Prelude.{ℕ, zero, suc, ◌+◌, ◌-◌, Bool, true, false, ◌==◌, if◌then◌else◌}

-- `idles` counts the idle handles that run, `closing` those that are being closed, and `deleted` how
-- often the object was deleted; `removal_calls` counts the calls of the removal callback.
pub record Removable : Type 0 where
  pub removal_scheduled : Bool
  pub about_to_remove : Bool
  pub on_remove_callback : Bool
  pub idles : ℕ
  pub closing : ℕ
  pub deleted : ℕ
  pub removal_calls : ℕ

abbrev pub fresh : Removable
fresh = record {
  removal_scheduled = false;
  about_to_remove = false;
  on_remove_callback = false;
  idles = 0;
  closing = 0;
  deleted = 0;
  removal_calls = 0;
}

pub schedule_removal : Removable → Removable
schedule_removal s = record s { removal_scheduled = true; idles = suc s.idles }

pub set_on_schedule_removal : Removable → Bool → Removable
set_on_schedule_removal s callback =
    if s.about_to_remove then s else record s { on_remove_callback = callback }

-- For an idle handle that runs.
pub on_removal : Removable → Removable
on_removal s = record s {
  about_to_remove = true;
  removal_calls = if s.on_remove_callback then suc s.removal_calls else s.removal_calls;
  idles = s.idles - 1;
  closing = suc s.closing;
}

-- For an idle handle that is being closed.
pub on_delete_idle_handle_close : Removable → Removable
on_delete_idle_handle_close s = record s { closing = s.closing - 1; deleted = suc s.deleted }

pub record RefCounted : Type 0 where
  pub ref_counter : ℕ
  pub removable : Removable

-- The constructor takes the first reference.
abbrev pub init : RefCounted
init = record { ref_counter = 1; removable = fresh }

pub ref : RefCounted → RefCounted
ref s = record s { ref_counter = suc s.ref_counter }

pub unref : RefCounted → RefCounted
unref s =
    if s.ref_counter == 0
    then s
    else let left = s.ref_counter - 1 in
      if left == 0
      then record { ref_counter = left; removable = schedule_removal s.removable }
      else record s { ref_counter = left }
