-- ===== src/Plugin.antt =====
-- src/extension.rs: commands to a plugin outside the trusted world, over one shared buffer.
pub mod Shared
mod Tests
use optee_utee.Prelude.{
  ℕ, ◌-◌, ltb, ◌==◌, if◌then◌else◌, List, [], ◌∷◌, ◌++◌, length, take, drop, replicate,
}
use optee_utee.Codes.{tee_success}
use optee_utee.Error
use optee_utee.Error.{Error, Result, ok, err, short_buffer}

pub record LoadablePlugin : Type 0 where
  pub uuid : ℕ

-- The vector `buffer`, with its capacity.
pub record LoadablePluginCommand : Type 0 where
  pub plugin : LoadablePlugin
  pub cmd_id : ℕ
  pub sub_cmd_id : ℕ
  pub buffer : List ℕ
  pub capacity : ℕ

-- `tee_invoke_supp_plugin`, with the shared buffer as it is when the call is made.
pub data Call : Type 0 where
  invoke_supp_plugin : ℕ → ℕ → ℕ → List ℕ → Call

-- The status, and what the plugin writes to the start of the shared buffer and to `outlen`.
pub record Reply : Type 0 where
  pub code : ℕ
  pub bytes : List ℕ
  pub outlen : ℕ

-- `Vec::resize`, with zeros.
unfoldable pub resize : List ℕ → ℕ → List ℕ
resize buffer n = take n (buffer ++ replicate (n - length buffer) 0)

-- The buffer after bytes were written at its start; it does not grow.
unfoldable pub overwrite : List ℕ → List ℕ → List ℕ
overwrite buffer bytes = take (length buffer) (bytes ++ drop (length bytes) buffer)

-- `alloc c n` is the capacity that a vector of capacity `c` gets when `n` elements are to fit.
module _ (alloc : ℕ → ℕ → ℕ) (tee : List Call → Reply) where
  unfoldable pub new_with_capacity : LoadablePlugin → ℕ → ℕ → ℕ → LoadablePluginCommand
  new_with_capacity plugin cmd_id sub_cmd_id capacity = record {
    plugin = plugin;
    cmd_id = cmd_id;
    sub_cmd_id = sub_cmd_id;
    buffer = [];
    capacity = alloc 0 capacity;
  }

  -- A vector keeps its capacity where it is enough.
  unfoldable pub write_body : LoadablePluginCommand → List ℕ → LoadablePluginCommand
  write_body c data_bytes =
      let n = length (c.buffer ++ data_bytes) in
      record c {
        buffer = c.buffer ++ data_bytes;
        capacity = if ltb c.capacity n then alloc c.capacity n else c.capacity;
      }

  unfoldable pub chain_write_body : LoadablePluginCommand → List ℕ → LoadablePluginCommand
  unfolding write_body
  chain_write_body c data_bytes = write_body c data_bytes

  unfoldable pub call : LoadablePluginCommand → List Call → Result Error (List ℕ) × List Call
  unfolding resize overwrite
  call c h =
      let buffer = resize c.buffer c.capacity in
      let h' = invoke_supp_plugin c.plugin.uuid c.cmd_id c.sub_cmd_id buffer ∷ h in
      let r = tee h' in
      (
        (if r.code == tee_success
            then (if ltb (length buffer) r.outlen
                then err (Error.new short_buffer)
                else ok (resize (overwrite buffer r.bytes) r.outlen))
            else err (Error.from_raw_error r.code)),
        h',
      )

  unfoldable pub invoke_with_capacity : LoadablePlugin → ℕ → ℕ → ℕ → LoadablePluginCommand
  unfolding new_with_capacity
  invoke_with_capacity plugin command_id subcommand_id capacity =
      new_with_capacity plugin command_id subcommand_id capacity

  unfoldable pub invoke :
      LoadablePlugin → ℕ → ℕ → List ℕ → List Call → Result Error (List ℕ) × List Call
  unfolding invoke_with_capacity chain_write_body call
  invoke plugin command_id subcommand_id data_bytes h =
      call
        (chain_write_body (invoke_with_capacity plugin command_id subcommand_id (length data_bytes))
          data_bytes)
        h
