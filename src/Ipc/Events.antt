-- ===== src/Ipc/Events.antt =====
-- src/shared/RdpIpc.h: the structs that the child sends.
use hyprv.Prelude.{ℕ, refl, [], ◌∷◌}
use hyprv.Ipc.Header.{Layout, at}

-- `status` 0 is OK, 1 is incompatible.
pub record HelloAck : Type 0 where
  pub selected_version : ℕ
  pub status : ℕ
  pub reserved : ℕ

instance abbrev pub hello_ack_layout : Layout HelloAck
hello_ack_layout = record {
  widths = 1 ∷ 1 ∷ 2 ∷ [];
  fields = λ s. s.selected_version ∷ s.status ∷ s.reserved ∷ [];
  of_fields = λ vs. record { selected_version = at 0 vs; status = at 1 vs; reserved = at 2 vs };
  of_fields-fields = λ s. refl;
}

pub record HwndReady : Type 0 where
  pub hwnd : ℕ

instance abbrev pub hwnd_ready_layout : Layout HwndReady
hwnd_ready_layout = record {
  widths = 8 ∷ [];
  fields = λ s. s.hwnd ∷ [];
  of_fields = λ vs. record { hwnd = at 0 vs };
  of_fields-fields = λ s. refl;
}

pub record Connected : Type 0 where
  pub enhanced_active : ℕ
  pub reserved : ℕ
  pub desktop_width : ℕ
  pub desktop_height : ℕ

instance abbrev pub connected_layout : Layout Connected
connected_layout = record {
  widths = 1 ∷ 3 ∷ 4 ∷ 4 ∷ [];
  fields = λ s. s.enhanced_active ∷ s.reserved ∷ s.desktop_width ∷ s.desktop_height ∷ [];
  of_fields = λ vs. record {
    enhanced_active = at 0 vs;
    reserved = at 1 vs;
    desktop_width = at 2 vs;
    desktop_height = at 3 vs;
  };
  of_fields-fields = λ s. refl;
}

-- The two reasons are the words of an `int32_t`; the description bytes follow.
pub record Disconnected : Type 0 where
  pub disc_reason : ℕ
  pub extended_reason : ℕ
  pub fatal : ℕ
  pub reserved : ℕ
  pub desc_byte_len : ℕ

instance abbrev pub disconnected_layout : Layout Disconnected
disconnected_layout = record {
  widths = 4 ∷ 4 ∷ 1 ∷ 3 ∷ 4 ∷ [];
  fields = λ s. s.disc_reason ∷ s.extended_reason ∷ s.fatal ∷ s.reserved ∷ s.desc_byte_len ∷ [];
  of_fields = λ vs. record {
    disc_reason = at 0 vs;
    extended_reason = at 1 vs;
    fatal = at 2 vs;
    reserved = at 3 vs;
    desc_byte_len = at 4 vs;
  };
  of_fields-fields = λ s. refl;
}

pub record EnhancedReady : Type 0 where
  pub ready : ℕ
  pub reserved : ℕ

instance abbrev pub enhanced_ready_layout : Layout EnhancedReady
enhanced_ready_layout = record {
  widths = 1 ∷ 3 ∷ [];
  fields = λ s. s.ready ∷ s.reserved ∷ [];
  of_fields = λ vs. record { ready = at 0 vs; reserved = at 1 vs };
  of_fields-fields = λ s. refl;
}

pub record DesktopResized : Type 0 where
  pub width : ℕ
  pub height : ℕ

instance abbrev pub desktop_resized_layout : Layout DesktopResized
desktop_resized_layout = record {
  widths = 4 ∷ 4 ∷ [];
  fields = λ s. s.width ∷ s.height ∷ [];
  of_fields = λ vs. record { width = at 0 vs; height = at 1 vs };
  of_fields-fields = λ s. refl;
}

-- The source's `Error`.
pub record RdpError : Type 0 where
  pub code : ℕ

instance abbrev pub rdp_error_layout : Layout RdpError
rdp_error_layout = record {
  widths = 4 ∷ [];
  fields = λ s. s.code ∷ [];
  of_fields = λ vs. record { code = at 0 vs };
  of_fields-fields = λ s. refl;
}

-- The text's bytes follow.
pub record LogLine : Type 0 where
  pub level : ℕ
  pub reserved : ℕ
  pub byte_len : ℕ

instance abbrev pub log_line_layout : Layout LogLine
log_line_layout = record {
  widths = 1 ∷ 3 ∷ 4 ∷ [];
  fields = λ s. s.level ∷ s.reserved ∷ s.byte_len ∷ [];
  of_fields = λ vs. record { level = at 0 vs; reserved = at 1 vs; byte_len = at 2 vs };
  of_fields-fields = λ s. refl;
}
