-- ===== src/Config/Apply.antt =====
-- `apply_kv` of src/config.cpp against a plain description, setting by setting.
mod Resolve
mod Steps
mod Outputs
mod Modules
mod Fields
pub use Fields.{apply_kv-resolve}
pub use Resolve.{or_old, or_set, bool_of, level_of, output_of, resolve}
pub use Modules.{override, module_of, lookup-apply_kv}
