-- ===== src/Framework/IoObj.antt =====
-- class IIoObj of libsmart_net/src/framework/sn_io_obj.h: what an object of the tasks keeps for them.
-- i32IoType is EIT_INPUT_TYPE or EIT_OUTPUT_TYPE in all calls; any other value fails an assertion.
use smart_net.Base.{ℕ, ℤ, pos, if◌then◌else◌, ◌==◌}

pub data IoType : Type 0 where
  input_type : IoType
  output_type : IoType

pub record IoObj : Type 0 where
  pub input_task_id : ℤ
  pub output_task_id : ℤ
  pub input_evt : ℕ
  pub output_evt : ℕ

-- The constructor.
abbrev pub new_io_obj : IoObj
new_io_obj = record { input_task_id = pos 0; output_task_id = pos 0; input_evt = 0; output_evt = 0 }

abbrev pub set_io_evt : IoType → ℕ → IoObj → IoObj
set_io_evt input_type evt o = record o { input_evt = evt }
set_io_evt output_type evt o = record o { output_evt = evt }

abbrev pub get_io_evt : IoType → IoObj → ℕ
get_io_evt input_type o = o.input_evt
get_io_evt output_type o = o.output_evt

abbrev pub set_task_id : IoType → ℤ → IoObj → IoObj
set_task_id input_type id o = record o { input_task_id = id }
set_task_id output_type id o = record o { output_task_id = id }

abbrev pub get_task_id : IoType → IoObj → ℤ
get_task_id input_type o = o.input_task_id
get_task_id output_type o = o.output_task_id

-- The objects by their addresses.
abbrev pub IoObjs : Type 0
IoObjs = ℕ → IoObj

abbrev pub set_obj : ℕ → IoObj → IoObjs → IoObjs
set_obj i o objs j = if i == j then o else objs j
