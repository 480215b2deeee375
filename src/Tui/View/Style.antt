-- ===== src/Tui/View/Style.antt =====
-- tui/view.go: the styles. What the package lipgloss makes of a style and a text, and of texts that
-- it joins, and how a table of the package bubbles looks, are parameters.
use wc3ts.Prelude.{ℕ, Bool, true, false, List, Option, none, some, Bytes, codes}
use wc3ts.Tui.{Tables}

-- The properties of a `lipgloss.Style` that the program sets.
pub record Style : Type 0 where
  pub bold : Bool
  pub foreground : Option Bytes
  pub background : Option Bytes
  -- `RoundedBorder`, and its colour
  pub rounded : Bool
  pub border_foreground : Option Bytes
  pub padding_vert : ℕ
  pub padding_horiz : ℕ
  pub width : Option ℕ

-- `lipgloss.NewStyle`
abbrev plain : Style
plain = record {
  bold = false;
  foreground = none;
  background = none;
  rounded = false;
  border_foreground = none;
  padding_vert = 0;
  padding_horiz = 0;
  width = none;
}

abbrev detail_box_padding_vert : ℕ
detail_box_padding_vert = 1

abbrev detail_box_padding_horiz : ℕ
detail_box_padding_horiz = 2

abbrev detail_label_width : ℕ
detail_label_width = 14

pub record Styles : Type 0 where
  pub title : Style
  pub header : Style
  pub status_bar : Style
  pub help : Style
  pub log_line : Style
  pub detail_box : Style
  pub detail_label : Style
  pub detail_value : Style

abbrev pub new_styles : Styles
new_styles = record {
  title = record plain {
    bold = true;
    foreground = some (codes "229");
    background = some (codes "57");
    padding_horiz = 1;
  };
  header = record plain { bold = true; foreground = some (codes "99") };
  status_bar = record plain { foreground = some (codes "240") };
  help = record plain { foreground = some (codes "241") };
  log_line = record plain { foreground = some (codes "245") };
  detail_box = record plain {
    rounded = true;
    border_foreground = some (codes "99");
    padding_vert = detail_box_padding_vert;
    padding_horiz = detail_box_padding_horiz;
  };
  detail_label = record plain { foreground = some (codes "245"); width = some detail_label_width };
  detail_value = record plain { foreground = some (codes "255") };
}

-- `Style.Render`, `lipgloss.JoinHorizontal` at the top, and `table.Model.View`.
pub record Renderer (ops : Tables) : Type 0 where
  pub render : Style → Bytes → Bytes
  pub join_horizontal : List Bytes → Bytes
  pub table_view : ops.Table → Bytes
