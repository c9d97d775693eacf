-- ===== src/Server/Edit.antt =====
-- Writing through the pointers that `dynObjectByName` and `objectByName` return.
use labyrinthus.Base.{Bytes, ◌++◌, Run, ◌>>=◌}
use labyrinthus.Object.Value.{Object, dyn, nested}
use labyrinthus.Object.Access.{dyn_object_by_name, object_by_name, put_value}

-- `o->dynObjectByName(name)->append(data)`
unfoldable pub append_dyn : Object → Bytes → Bytes → Run Object
append_dyn o name bytes = do old ← dyn_object_by_name o name; put_value o name (dyn (old ++ bytes))

-- A change of the object in the row of that name
unfoldable pub update_object : Object → Bytes → (Object → Run Object) → Run Object
update_object o name change = do
  a ← object_by_name o name
  a' ← change a
  put_value o name (nested a')
