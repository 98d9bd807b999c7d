-- ===== src/Config/Device.antt =====
-- The name of the device in components/config/dd_config.c.
use dingdong.Common.{
  ℕ, not, ◌||◌, Option, none, some, List, [], length, leb, ◌==◌, if◌then◌else◌, Err, is_ok,
}
use dingdong.Nvs.{Nvs, readonly, readwrite}
use dingdong.Config.{ns, key_device_name, device_name_max, string_of}

module _ {S : Type 0} (nvs : Nvs S) where
  -- dd_config_get_device_name; a capacity of 0 stands for a NULL buffer too
  unfoldable pub get_device_name : ℕ → S → Err × List ℕ
  get_device_name cap s =
      if cap == 0
      then (Err.invalid_arg, [])
      else if not (is_ok (nvs.opens readonly ns s))
      then (Err.not_found, [])
      else string_of nvs cap key_device_name s

  -- dd_config_set_device_name
  unfoldable pub set_device_name : Option (List ℕ) → S → Err × S
  set_device_name none s = (Err.invalid_arg, s)
  set_device_name (some name) s =
      let e_open = nvs.opens readwrite ns s in
      let (e1, s1) = nvs.set_str ns key_device_name name s in
      if (length name == 0) || leb device_name_max (length name)
      then (Err.invalid_arg, s)
      else if not (is_ok e_open)
      then (e_open, s)
      else if is_ok e1
      then nvs.commit ns s1
      else (e1, s1)
