-- ===== src/Extension.antt =====
-- The one-byte header extensions (RFC 5285) that both RTP handlers read and rewrite. The code of
-- quality/media_statistics_handler.cpp and video/video_transport_handler.cpp is the same up to the
-- element: the steps that they share stand here, and each handler composes them.
mod Scan
mod Rewrite
mod Layout
mod Element
unfoldable pub use Scan.{used_loop, find_loop, ends}
pub use Scan.{value_size, or_else, used_part, find_loop-append}
unfoldable pub use Rewrite.{
  pad_loop, set_extension_bit, fixed_header_size, old_extension, put_extension, extension_value,
}
pub use Rewrite.{one_byte_extension_profile, pad, pad_shape, length-pad}
pub use Layout.{HeaderKept}
pub use Element.{
  CanRewrite, payload_of, element, put_element, extension_value-put_element, put_element-HeaderKept,
  length-put_element, put_element-CanRewrite, extension_value-put_element_ne,
  payload_of-put_element, old_extension-put_element,
}
