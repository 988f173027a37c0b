-- ===== src/Ansi/Safety.antt =====
-- safe_ansi_formatted_text of src/tfr/ansi.py, up to the text it hands to the terminal library.
