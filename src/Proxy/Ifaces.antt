-- ===== src/Proxy/Ifaces.antt =====
-- set_interfaces_added_callback and set_interfaces_removed_callback of
-- lib/ultrabus/object_proxy.cpp: the object manager is looked for at a path of its own.
use Prim.Native.String.{String}
use Prim.Native.String.{◌++◌ as concat}
use text.Mathlib.Text.{◌==◌ as str_eq}
use libultrabus.Common.{ℕ, Bool, true, false, Option, none, some, if◌then◌else◌}
use libultrabus.Matches.{Filter, add_match, remove_match}
use libultrabus.Proxy.{Proxy, Env, resolve}

-- make_object_iface_added_rule and make_object_iface_removed_rule, which differ in the member.
abbrev pub iface_rule : String → String → String → String → String
iface_rule member bus_name opath_arg opath =
    concat (concat "type='signal',sender='" (concat bus_name "',path='")) (
      concat opath (
        concat "',interface='org.freedesktop.DBus.ObjectManager',member='"
          (concat member (concat "',arg0path='" (concat opath_arg "'")))))

-- The fields that a setter changes, and what it returns.
pub record Rooted : Type 0 where
  pub filter : Filter
  pub callback : Option ℕ
  pub root : String
  pub ok : Bool

-- From `bool ok = true` to the end; `rule` makes the rule of a path.
unfoldable pub change_root :
    Env → (String → String) → String → Option ℕ → Option ℕ → String → Filter → Rooted
change_root env rule om_root none none root f = record {
  filter = f;
  callback = none;
  root = "";
  ok = true;
}
change_root env rule om_root none (some old) root f = record {
  filter = (remove_match env.up env.remove_reply (rule root) f).0;
  callback = none;
  root = "";
  ok = true;
}
change_root env rule om_root (some cb) none root f =
    let (g, ret) = add_match env.up env.add_reply (rule om_root) f in
    record {
      filter = g;
      callback = if ret.value then some cb else none;
      root = if ret.value then om_root else root;
      ok = ret.value;
    }
change_root env rule om_root (some cb) (some old) root f =
    if str_eq om_root root
    then record { filter = f; callback = some cb; root = om_root; ok = true }
    else (let (g, ret) = add_match env.up env.add_reply (rule om_root) f in
        if ret.value
        then record {
          filter = (remove_match env.up env.remove_reply (rule root) g).0;
          callback = some cb;
          root = om_root;
          ok = true;
        }
        else record { filter = g; callback = some old; root = root; ok = false })

abbrev pub added_rule : Proxy → String → String
added_rule s om_root = iface_rule "InterfacesAdded" s.target_unique_name s.opath om_root

abbrev pub removed_rule : Proxy → String → String
removed_rule s om_root = iface_rule "InterfacesRemoved" s.target_unique_name s.opath om_root

unfoldable pub set_interfaces_added_callback : Env → Option ℕ → String → Proxy → Proxy × Bool
unfolding change_root resolve
set_interfaces_added_callback env callback om_root s =
    let (t, known) = resolve env s in
    let r =
      change_root env (added_rule t) om_root callback t.object_ifaces_added_cb t.iface_add_om_root
        t.filter in
    if known
    then (
      record t {
        filter = r.filter;
        object_ifaces_added_cb = r.callback;
        iface_add_om_root = r.root;
      },
      r.ok,
    )
    else (t, false)

unfoldable pub set_interfaces_removed_callback : Env → Option ℕ → String → Proxy → Proxy × Bool
unfolding change_root resolve
set_interfaces_removed_callback env callback om_root s =
    let (t, known) = resolve env s in
    let r =
      change_root env (removed_rule t) om_root callback t.object_ifaces_removed_cb
        t.iface_del_om_root t.filter in
    if known
    then (
      record t {
        filter = r.filter;
        object_ifaces_removed_cb = r.callback;
        iface_del_om_root = r.root;
      },
      r.ok,
    )
    else (t, false)
