-- ===== src/Api/Capabilities.antt =====
-- handleInstance and providerInfo of internal/api/handlers.go: what the deployment can do.
use manualbox.Prelude.{Bool, List, [], ◌∷◌, map}
use manualbox.Prelude.Text.{Text, text}
use manualbox.Config.{Config, Provider, enabled, is_set, primary_language}
use manualbox.Extern.{Status, Shell, install_hint, probe_all}

pub record ToolInfo : Type 0 where
  pub name : Text
  pub available : Bool
  pub version : Text
  pub purpose : Text
  pub install : Text

pub record ProviderInfo : Type 0 where
  pub kind : Text
  pub model : Text
  pub enabled : Bool
  pub has_api_key : Bool

-- The body of the answer; each provider under its name stands for its capability too.
pub record Instance : Type 0 where
  pub version : Text
  pub languages : List Text
  pub primary : Text
  pub convert : ProviderInfo
  pub ocr : ProviderInfo
  pub translate : ProviderInfo
  pub extract : ProviderInfo
  pub capabilities : List (Text × Bool)
  pub external_tools : List ToolInfo

-- providerInfo
unfoldable pub provider_info : Provider → ProviderInfo
provider_info p = record {
  kind = p.kind;
  model = p.model;
  enabled = enabled p;
  has_api_key = is_set p.api_key;
}

unfoldable pub tool_info : Shell → Status → ToolInfo
tool_info s st = record {
  name = st.tool.name;
  available = st.found;
  version = st.version;
  purpose = st.tool.purpose;
  install = install_hint s st.tool;
}

-- handleInstance
unfoldable pub instance_of : Config → Text → Shell → Instance
unfolding provider_info tool_info
instance_of cfg version s =
    let ps = cfg.providers in
    record {
      version = version;
      languages = cfg.content.languages;
      primary = primary_language cfg;
      convert = provider_info ps.convert;
      ocr = provider_info ps.ocr;
      translate = provider_info ps.translate;
      extract = provider_info ps.extract;
      capabilities =
          (text "convert", enabled ps.convert)
          ∷ (text "ocr", enabled ps.ocr)
          ∷ (text "translate", enabled ps.translate)
          ∷ (text "extract", enabled ps.extract)
          ∷ [];
      external_tools = map (tool_info s) (probe_all s);
    }
