-- ===== src/Nudge/Layers.antt =====
-- The layers of a transaction: the search or creation of a layer by its name, and the aggregates
-- that a call is added to. Counters and times are `int64`.
pub mod Totals
use opentelemetry_collector.Prelude.{
  ℕ, String, Bool, List, [], ◌∷◌, ◌++◌, Option, none, some, length, ◌==◌, add64, max64, min64,
}
use opentelemetry_collector.Nudge.Extension.{ExtensionLinux}
use opentelemetry_collector.Nudge.Model.{Layer, LayerDetail, get_or_zero}

-- GetLayerName() == name
abbrev pub is_named : String → Layer → Bool
is_named name l = elim l.layer_name [ none ↦ "" == name | some n ↦ n == name ]

-- a layer that was just created
unfoldable pub new_layer : String → Layer
new_layer name = record {
  layer_name = some name;
  count = some 0;
  errors = some 0;
  time = none;
  min = none;
  max = none;
  calls = [];
}

-- the layers, and the index of the one with a name, which is created at the end if there is none
unfoldable pub open_layer : ExtensionLinux → List Layer → String → List Layer × (Layer × ℕ)
unfolding new_layer
open_layer ext layers name = elim (ext.find Layer layers (is_named name)) [
  | some (l, i) ↦ (layers, (l, i))
  | none ↦ (layers ++ new_layer name ∷ [], (new_layer name, length layers))
]

-- SetErrors(GetErrors() + 1)
unfoldable pub add_error : Layer → Layer
add_error l = record l { errors = some (add64 (get_or_zero l.errors) 1) }

-- a call that is appended to Calls
abbrev pub add_call : LayerDetail → Layer → Layer
add_call d l = record l { calls = l.calls ++ d ∷ [] }

-- the end of a branch: the call is appended and counted
unfoldable pub close_layer : LayerDetail → Layer → Layer
close_layer d l = record (add_call d l) {
  count = some (add64 (get_or_zero l.count) (get_or_zero d.count));
  time = some (add64 (get_or_zero l.time) (get_or_zero d.time));
  max = some (max64 (get_or_zero l.max) (get_or_zero d.time));
  min = some (min64 (get_or_zero l.min) (get_or_zero d.time));
}
