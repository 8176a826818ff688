-- ===== src/Ipc/Commands.antt =====
-- src/shared/RdpIpc.h: the structs that the parent sends.
use hyprv.Prelude.{ℕ, refl, [], ◌∷◌, drop}
use hyprv.Ipc.Header.{Layout, at}

pub record Hello : Type 0 where
  pub min_version : ℕ
  pub max_version : ℕ
  pub reserved : ℕ

instance abbrev pub hello_layout : Layout Hello
hello_layout = record {
  widths = 1 ∷ 1 ∷ 2 ∷ [];
  fields = λ s. s.min_version ∷ s.max_version ∷ s.reserved ∷ [];
  of_fields = λ vs. record { min_version = at 0 vs; max_version = at 1 vs; reserved = at 2 vs };
  of_fields-fields = λ s. refl;
}

-- The server, domain and user bytes follow the struct (`Connect` holds no more than this).
pub record RdpOptions : Type 0 where
  pub port : ℕ
  pub desktop_width : ℕ
  pub desktop_height : ℕ
  pub color_depth : ℕ
  pub flags : ℕ
  pub audio_mode : ℕ
  pub dpi_scale_percent : ℕ
  pub reserved : ℕ
  pub server_byte_len : ℕ
  pub domain_byte_len : ℕ
  pub user_byte_len : ℕ

instance abbrev pub rdp_options_layout : Layout RdpOptions
rdp_options_layout = record {
  widths = 2 ∷ 2 ∷ 2 ∷ 2 ∷ 4 ∷ 1 ∷ 2 ∷ 1 ∷ 4 ∷ 4 ∷ 4 ∷ [];
  fields = λ s.
      s.port ∷ s.desktop_width ∷ s.desktop_height ∷ s.color_depth ∷ s.flags ∷ s.audio_mode
      ∷ s.dpi_scale_percent ∷ s.reserved ∷ s.server_byte_len ∷ s.domain_byte_len ∷ s.user_byte_len
      ∷ [];
  of_fields = λ vs. record {
    port = at 0 vs;
    desktop_width = at 1 vs;
    desktop_height = at 2 vs;
    color_depth = at 3 vs;
    flags = at 4 vs;
    audio_mode = at 5 vs;
    dpi_scale_percent = at 6 vs;
    reserved = at 7 vs;
    server_byte_len = at 8 vs;
    domain_byte_len = at 9 vs;
    user_byte_len = at 10 vs;
  };
  of_fields-fields = λ s. refl;
}

pub record Resize : Type 0 where
  pub width : ℕ
  pub height : ℕ

instance abbrev pub resize_layout : Layout Resize
resize_layout = record {
  widths = 2 ∷ 2 ∷ [];
  fields = λ s. s.width ∷ s.height ∷ [];
  of_fields = λ vs. record { width = at 0 vs; height = at 1 vs };
  of_fields-fields = λ s. refl;
}

pub record UpdateSessionDisplaySettings : Type 0 where
  pub width : ℕ
  pub height : ℕ
  pub phys_width : ℕ
  pub phys_height : ℕ
  pub orientation : ℕ
  pub desktop_scale : ℕ
  pub device_scale : ℕ

instance abbrev pub update_session_display_settings_layout : Layout UpdateSessionDisplaySettings
update_session_display_settings_layout = record {
  widths = 4 ∷ 4 ∷ 4 ∷ 4 ∷ 4 ∷ 4 ∷ 4 ∷ [];
  fields = λ s.
      s.width ∷ s.height ∷ s.phys_width ∷ s.phys_height ∷ s.orientation ∷ s.desktop_scale
      ∷ s.device_scale ∷ [];
  of_fields = λ vs. record {
    width = at 0 vs;
    height = at 1 vs;
    phys_width = at 2 vs;
    phys_height = at 3 vs;
    orientation = at 4 vs;
    desktop_scale = at 5 vs;
    device_scale = at 6 vs;
  };
  of_fields-fields = λ s. refl;
}

pub record SetEnhanced : Type 0 where
  pub enabled : ℕ
  pub reserved : ℕ

instance abbrev pub set_enhanced_layout : Layout SetEnhanced
set_enhanced_layout = record {
  widths = 1 ∷ 3 ∷ [];
  fields = λ s. s.enabled ∷ s.reserved ∷ [];
  of_fields = λ vs. record { enabled = at 0 vs; reserved = at 1 vs };
  of_fields-fields = λ s. refl;
}

-- `uint8_t vmGuid[16]` is the number that its bytes spell, the first byte the lowest.
pub record ConnectLocalVm : Type 0 where
  pub vm_guid : ℕ
  pub options : RdpOptions

instance abbrev pub connect_local_vm_layout : Layout ConnectLocalVm
connect_local_vm_layout = record {
  widths = 16 ∷ rdp_options_layout.widths;
  fields = λ s. s.vm_guid ∷ rdp_options_layout.fields s.options;
  of_fields =
      λ vs. record { vm_guid = at 0 vs; options = rdp_options_layout.of_fields (drop 1 vs) };
  of_fields-fields = λ s. refl;
}
